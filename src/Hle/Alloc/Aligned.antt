-- ===== src/Hle/Alloc/Aligned.antt =====
-- posix_memalign and aligned_alloc: what their argument checks let through.
use cross_shim.Base.{
  ℕ, ◌+◌, ◌-◌, ◌*◌, ◌^◌, ◌%◌, ◌≤◌, ◌<◌, ◌≡◌, refl, Bool, true, false, ◌||◌, not, Option, none, ◌⊎◌,
  inl, inr, arith, ltb, ◌==◌, Bool-cases,
}
use Prim.Native.Nat.{bit_and}
use native.Mathlib.Nat.{pow-le-pow_right}
use cross_shim.Base.Bits.{power_of_two}
use cross_shim.Base.Word.{u64_mod, IsPower}
use cross_shim.Heap.{at_least_one}
use cross_shim.Memory.{MemoryManager, page_size}
use cross_shim.Memory.Host.{Qemu}
use cross_shim.Memory.Guest.{allocate_guest_memory}
use cross_shim.Memory.Owned.{GuestValid, GuestFits, Got}
use cross_shim.Memory.Allocate.{allocate_guest_memory-Got}
use cross_shim.Hle.Alloc.{
  Process, posix_memalign, store_pointer, is_power_of_two, einval, enomem, intptr_max,
}

small_power : (x k : ℕ) → x < u64_mod → x ≡ 2 ^ k → k < 64
small_power x k lt e = elim (Bool-cases (ltb k 64)) [
  | inl h ↦ ground arith
  | inr h ↦
      let le : 64 ≤ k = ground arith in
      absurd (omega (arith, pow-le-pow_right {n = 2} (omega arith) le))
]

pub is_power_of_two-IsPower : (x : ℕ) → x < u64_mod → is_power_of_two x ≡ true → IsPower x
unfolding is_power_of_two
is_power_of_two-IsPower x lt e =
    let pos : 0 < x = ground arith in
    let apart : bit_and x (x - 1) ≡ 0 = ground arith in
    let (k, p) = power_of_two x x (omega arith) pos apart in (k, small_power x k lt p, p)

-- The sums of the request do not wrap, whatever its alignment is.
abbrev pub Room : {G : Type 0} → MemoryManager G → ℕ → ℕ → Type 0
Room m n al =
    (m.heap.base + m.heap.size + al + n ≤ u64_mod)
    × (m.next_dynamic_alloc + al + n + 3 * page_size < u64_mod)

-- The arguments that posix_memalign refuses with EINVAL.
abbrev pub refused : ℕ → ℕ → Bool
refused memptr al = (memptr == 0) || ltb al 8 || not (is_power_of_two al) || not (al % 8 == 0)

-- The result is 0: a block was allocated, and its address written to `memptr`.
pub record Stored {G : Type 0} (q : Qemu G) (m : MemoryManager G) (memptr al size : ℕ)
    (m' : MemoryManager G) : Type 0 where
  pub taken : MemoryManager G
  pub block : ℕ
  pub got : Got m (at_least_one size) al block taken
  pub stored : m' ≡ store_pointer q taken memptr block

module _ {G : Type 0} (q : Qemu G) (p : Process G) (memptr al size : ℕ) (fresh : Option ℕ) where
  one_more : 0 < at_least_one size
  one_more = ground arith

  request_fits :
      al < u64_mod
      → Room p.memory (at_least_one size) al
      → refused memptr al ≡ false
      → GuestFits p.memory (at_least_one size) al
  request_fits lt room ok =
      let power : is_power_of_two al ≡ true = ground arith in
      record {
        fits = record {
          power = is_power_of_two-IsPower al lt power;
          nonzero = one_more;
          room = room.0;
        };
        room = room.1;
      }

  -- What each branch of posix_memalign leaves behind, on a valid manager and if no sum of the
  -- request wraps: EINVAL exactly for the refused arguments; ENOMEM only for a size above the
  -- greatest intptr_t or if mmap gives no pages, both with the memory unchanged; otherwise 0, an
  -- aligned block of the size apart from every other, and its address written to `memptr`.
  pub posix_memalign-Stored :
      al < u64_mod
      → GuestValid p.memory
      → Room p.memory (at_least_one size) al
      → let out = posix_memalign q p memptr al size fresh in
        ((refused memptr al ≡ true) × (out.x0 ≡ einval) × (out.process.memory ≡ p.memory))
        ⊎ ((refused memptr al ≡ false)
            × (intptr_max < size ⊎ (fresh ≡ none))
            × (out.x0 ≡ enomem)
            × (out.process.memory ≡ p.memory))
        ⊎ ((refused memptr al ≡ false)
            × (out.x0 ≡ 0)
            × Stored q p.memory memptr al size out.process.memory)
  unfolding posix_memalign
  posix_memalign-Stored lt v room = elim (Bool-cases (refused memptr al)) [
    | inl bad ↦ rw bad (inl (refl, refl, refl))
    | inr ok ↦ elim (Bool-cases (ltb intptr_max size)) [
      | inl big ↦ rw (ok, big) (inr (inl (refl, inl (ground arith), refl, refl)))
      | inr fine ↦
          elim (allocate_guest_memory-Got q p.memory size al fresh v (request_fits lt room ok)) [
            | inl g ↦
                let r = (allocate_guest_memory q p.memory size al fresh).1 in
                let nz : (r == 0) ≡ false = ground (arith, g.nonnull) in
                rw (ok, fine, nz)
                  (inr (
                    inr (
                      refl,
                      refl,
                      record {
                        taken = (allocate_guest_memory q p.memory size al fresh).0;
                        block = r;
                        got = g;
                        stored = refl;
                      },
                    )))
            | inr (no_map, e) ↦ rw (ok, fine, e) (inr (inl (refl, inr no_map, refl, refl)))
          ]
    ]
  ]
