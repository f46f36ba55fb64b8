-- ===== src/Memory/Copy.antt =====
-- The loop of MemoryManager::realloc_guest_memory that moves the old bytes to the new block.
use cross_shim.Base.{
  ℕ, zero, suc, ◌+◌, ◌-◌, ◌≤◌, ◌<◌, ◌≡◌, refl, ap, ap₂, sym, ◌∙◌, inl, inr, ◌⊎◌, Bool, true, some,
  List, ◌∷◌, ◌++◌, Bool-cases, arith, ltb, length, min,
}
use cross_shim.Base.Word.{u64_mod, add64, add64_lem}
use cross_shim.Memory.{MemoryManager, read, write}
use cross_shim.Memory.Host.{Qemu, read_bytes, write_bytes}
use cross_shim.Memory.Region.{MemoryRegion, holds_range, find_region}
use cross_shim.Memory.Guest.{copy_chunk, copy_loop}
use cross_shim.Memory.Bytes.{write_bytes-append, read_bytes-write_disjoint, read_bytes-write_bytes}
use cross_shim.Memory.ReadWrite.{NoGuest, Apart, ptr, read-found}
use cross_shim.Memory.Zero.{Separate, find_part, found-Inside, write-found}

length-read_bytes : (h : ℕ → ℕ) (p n : ℕ) → length (read_bytes h p n) ≡ n
unfolding read_bytes
length-read_bytes h p zero = refl
length-read_bytes h p (suc n) = ap suc (length-read_bytes h (suc p) n)

read_bytes-append :
    (h : ℕ → ℕ) (p k j : ℕ) → read_bytes h p k ++ read_bytes h (p + k) j ≡ read_bytes h p (k + j)
unfolding read_bytes
read_bytes-append h p zero j = ap₂ (read_bytes h) (omega arith) (omega arith)
read_bytes-append h p (suc k) j =
    let up : p + suc k ≡ suc p + k = omega arith in
    let sum : suc k + j ≡ suc (k + j) = omega arith in
    rw (up, sum, read_bytes) (ap (λ (bs : List ℕ). h p ∷ bs) (read_bytes-append h (suc p) k j))

module _ {G : Type 0} (q : Qemu G) (from to n : ℕ) (r t : MemoryRegion)
    (fits : (from + n < u64_mod) × (to + n < u64_mod))
    (apart : Apart (ptr from r) n (ptr to t) n) where
  abbrev copied : MemoryManager G → ℕ → MemoryManager G
  copied m i = record m {
    host = write_bytes m.host (ptr to t + i) (read_bytes m.host (ptr from r + i) (n - i));
  }

  -- A chunk and then the rest are the whole.
  chunks :
      (h : ℕ → ℕ) (i k : ℕ)
      → i + k ≤ n
      → let h' = write_bytes h (ptr to t + i) (read_bytes h (ptr from r + i) k) in
        write_bytes h' (ptr to t + (i + k)) (read_bytes h' (ptr from r + (i + k)) (n - (i + k)))
        ≡ write_bytes h (ptr to t + i) (read_bytes h (ptr from r + i) (n - i))
  chunks h i k le =
      let bs = read_bytes h (ptr from r + i) k in
      let len : length bs ≡ k = length-read_bytes h (ptr from r + i) k in
      let clear : (ptr from r + (i + k) + (n - (i + k)) ≤ ptr to t + i)
          ⊎ (ptr to t + i + length bs ≤ ptr from r + (i + k)) =
        elim apart [ inl x ↦ inl (omega arith) | inr x ↦ inr (omega (arith, len)) ] in
      let same =
        read_bytes-write_disjoint h (ptr to t + i) (ptr from r + (i + k)) (n - (i + k)) bs clear in
      let start : ptr to t + (i + k) ≡ ptr to t + i + length bs = omega (arith, len) in
      let src : ptr from r + (i + k) ≡ ptr from r + i + k = omega arith in
      let all : k + (n - (i + k)) ≡ n - i = omega arith in
      rw
        (
          same,
          start,
          write_bytes-append h (ptr to t + i) bs
              (read_bytes h (ptr from r + (i + k)) (n - (i + k))),
          src,
          read_bytes-append h (ptr from r + i) k (n - (i + k)),
          all,
        )
        refl

  read_part :
      (m : MemoryManager G) (i k : ℕ)
      → NoGuest q m
      → Separate m.regions
      → find_region (holds_range from n) m.regions ≡ some r
      → i + k ≤ n
      → 0 < k
      → read q m (add64 from i) k ≡ some (read_bytes m.host (ptr from r + i) k)
  read_part m i k off v e le pos =
      let at : add64 from i ≡ from + i = add64_lem from i (omega (arith, fits.0)) in
      let part =
        find_part from n (from + i) k m.regions r fits.0 v (omega arith) (omega arith) pos e in
      let p : ptr (from + i) r ≡ ptr from r + i =
        omega (arith, found-Inside from n m.regions r fits.0 v e) in
      rw (at, ← p) (read-found q m (from + i) k r off part)

  write_part :
      (m : MemoryManager G) (i k : ℕ)
      → NoGuest q m
      → Separate m.regions
      → find_region (holds_range to n) m.regions ≡ some t
      → i + k ≤ n
      → 0 < k
      → write q m (add64 to i) (read_bytes m.host (ptr from r + i) k)
        ≡ some (record m {
          host = write_bytes m.host (ptr to t + i) (read_bytes m.host (ptr from r + i) k);
        })
  write_part m i k off v f le pos =
      let bs = read_bytes m.host (ptr from r + i) k in
      let at : add64 to i ≡ to + i = add64_lem to i (omega (arith, fits.1)) in
      let len : length bs ≡ k = length-read_bytes m.host (ptr from r + i) k in
      let part = find_part to n (to + i) k m.regions t fits.1 v (omega arith) (omega arith) pos f in
      let p : ptr (to + i) t ≡ ptr to t + i =
        omega (arith, found-Inside to n m.regions t fits.1 v f) in
      rw (at, ← p)
        (write-found q m (to + i) bs t off
          (ap (λ (j : ℕ). find_region (holds_range (to + i) j) m.regions) len ∙ part))

  copy_loop_lem :
      (fuel : ℕ) (m : MemoryManager G) (i : ℕ)
      → NoGuest q m
      → Separate m.regions
      → find_region (holds_range from n) m.regions ≡ some r
      → find_region (holds_range to n) m.regions ≡ some t
      → i ≤ n
      → n - i < fuel
      → copy_loop q fuel m from to n i ≡ (copied m i, true)
  unfolding copy_loop read_bytes write_bytes
  copy_loop_lem zero m i off v e f le enough = absurd (omega arith)
  copy_loop_lem (suc fuel) m i off v e f le enough = elim (Bool-cases (ltb i n)) [
    | inl more ↦
        let k = min (n - i) copy_chunk in
        let lt : i < n = ground arith in
        let pos : 0 < k = omega arith in
        let le' : i + k ≤ n = omega arith in
        let bs = read_bytes m.host (ptr from r + i) k in
        let m' = record m { host = write_bytes m.host (ptr to t + i) bs } in
        rw (more, copy_loop, read_part m i k off v e le' pos, write_part m i k off v f le' pos)
          (copy_loop_lem fuel m' (i + k) off v e f le' (omega arith)
            ∙ ap {B = MemoryManager G × Bool} (λ (h : ℕ → ℕ). (record m { host = h }, true))
                (chunks m.host i k le'))
    | inr done ↦ let z : n - i ≡ 0 = ground arith in rw (done, copy_loop, z) refl
  ]

  -- The loop that copies the old block succeeds, whatever the number of chunks, and the new block
  -- then reads as the old one did: while QEMU has no processor, if one region holds each block,
  -- the regions do not overlap in the guest, no end wraps, and the two blocks do not overlap in
  -- the host.
  pub copy_loop-read :
      (m : MemoryManager G)
      → NoGuest q m
      → Separate m.regions
      → find_region (holds_range from n) m.regions ≡ some r
      → find_region (holds_range to n) m.regions ≡ some t
      → let out = copy_loop q (suc n) m from to n 0 in
        (out.1 ≡ true) × (read q out.0 to n ≡ read q m from n)
  copy_loop-read m off v e f =
      let loop = copy_loop_lem (suc n) m 0 off v e f (omega arith) (omega arith) in
      let bs = read_bytes m.host (ptr from r + 0) (n - 0) in
      let len : length bs ≡ n = length-read_bytes m.host (ptr from r + 0) (n - 0) ∙ omega arith in
      let back = read_bytes-write_bytes m.host (ptr to t + 0) bs in
      let base : ptr to t + 0 ≡ ptr to t = omega arith in
      let source : bs ≡ read_bytes m.host (ptr from r) n =
        ap₂ (read_bytes m.host) (omega arith) (omega arith) in
      rw loop (
        refl,
        read-found q (copied m 0) to n t off f
            ∙ ap some (ap₂ (read_bytes (copied m 0).host) (sym base) (sym len) ∙ back ∙ source)
            ∙ sym (read-found q m from n r off e),
      )
