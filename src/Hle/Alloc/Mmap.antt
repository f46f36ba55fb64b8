-- ===== src/Hle/Alloc/Mmap.antt =====
-- mmap and munmap against the budget of mappings.
use cross_shim.Base.{
  ℕ, ◌+◌, ◌≤◌, ◌≡◌, ◌≢◌, refl, ap, ◌∙◌, true, false, Option, none, arith, ◌==◌, Bool-cases, inl,
  inr,
}
use cross_shim.Base.Word.{add64_lem}
use cross_shim.Container.Dict.{lookup}
use cross_shim.Memory.Host.{Qemu}
use cross_shim.Memory.Guest.{allocate_guest_memory}
use cross_shim.Hle.Vma.{VmaState, guest_vma_limit, try_reserve_vmas, release_vmas}
use cross_shim.Hle.Vma.Budget.{release-try_reserve}
use cross_shim.Hle.Alloc.{Process, mmap, mmap_reserved, munmap, minus_one}

-- What a reservation that succeeded found.
reserved_room :
    (s : VmaState) (k : ℕ)
    → k ≢ 0
    → s.count ≤ guest_vma_limit
    → (try_reserve_vmas s k 1).1 ≡ true
    → s.count + 1 ≤ guest_vma_limit
unfolding try_reserve_vmas
reserved_room s k key bounded e =
    let whole = add64_lem s.count 1 (omega arith) in ground (arith, key, whole)

module _ {G : Type 0} (q : Qemu G) (p : Process G) (length : ℕ) (fresh : Option ℕ) where
  abbrev ptr : ℕ
  ptr = (allocate_guest_memory q p.memory length 4096 fresh).1

  abbrev reserved : VmaState
  reserved = (try_reserve_vmas p.vmas p.next_key 1).0

  mmap_refused :
      (try_reserve_vmas p.vmas p.next_key 1).1 ≡ false → (mmap q p length fresh).x0 ≡ minus_one
  unfolding mmap
  mmap_refused e = rw e refl

  mmap_full :
      (try_reserve_vmas p.vmas p.next_key 1).1 ≡ true
      → ptr ≡ 0
      → (mmap q p length fresh).x0 ≡ minus_one
  unfolding mmap mmap_reserved
  mmap_full e z = rw (e, z) refl

  mmap_done :
      (try_reserve_vmas p.vmas p.next_key 1).1 ≡ true
      → ptr ≢ 0
      → ((mmap q p length fresh).x0 ≡ ptr)
        × ((mmap q p length fresh).process.vmas
            ≡ (try_reserve_vmas (release_vmas reserved p.next_key) ptr 1).0)
  unfolding mmap mmap_reserved
  mmap_done e nz = let z : (ptr == 0) ≡ false = ground (arith, nz) in rw (e, z) (refl, refl)

  munmap-vmas : (p' : Process G) (a : ℕ) → (munmap p' a).process.vmas ≡ release_vmas p'.vmas a
  unfolding munmap
  munmap-vmas p' a = refl

  -- A mapping that `munmap` takes back leaves the number of mappings as it was before `mmap`, if that
  -- number is not above the limit, `mmap` did not fail, its key is not 0, and neither the key nor the address it returned had a
  -- reservation.
  pub munmap-mmap :
      p.next_key ≢ 0
      → p.vmas.count ≤ guest_vma_limit
      → lookup p.next_key p.vmas.reservations ≡ none
      → lookup ptr p.vmas.reservations ≡ none
      → (mmap q p length fresh).x0 ≢ minus_one
      → let out = mmap q p length fresh in
        (munmap out.process out.x0).process.vmas.count ≡ p.vmas.count
  munmap-mmap key bounded new new' ok = elim (Bool-cases (try_reserve_vmas p.vmas p.next_key 1).1) [
    | inr e ↦ absurd (ok (mmap_refused e))
    | inl e ↦ elim (Bool-cases (ptr == 0)) [
      | inl z ↦ absurd (ok (mmap_full e (ground arith)))
      | inr z ↦
          let nz : ptr ≢ 0 = ground arith in
          let room = reserved_room p.vmas p.next_key key bounded e in
          let first = release-try_reserve p.vmas p.next_key 1 key (omega arith) room new in
          let s = release_vmas reserved p.next_key in
          let second =
            release-try_reserve s ptr 1 nz (omega arith) (omega (arith, first.1, room))
              (first.2 ptr ∙ new') in
          let (at, left) = mmap_done e nz in
          ap (λ (v : VmaState). v.count)
            (munmap-vmas (mmap q p length fresh).process (mmap q p length fresh).x0)
          ∙ rw (at, left) (second.1 ∙ first.1)
    ]
  ]
