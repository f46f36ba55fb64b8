-- ===== src/Heap/Tests.antt =====
-- Runs of the heap allocator, and its theorems at a concrete heap.
use cross_shim.Base.{ℕ, ◌-◌, ◌^◌, ◌<◌, ◌≡◌, refl, ◌⊎◌, [], ◌∷◌, arith}
use cross_shim.Base.Word.{add64, sub64, not64, align_up}
use cross_shim.Container.Dict.{lookup}
use cross_shim.Container.MultiMap
use cross_shim.Heap.{HeapAllocator, find_fit, allocate, free}
use cross_shim.Heap.Invariant.{IsValid, Live}
use cross_shim.Heap.Allocate.{Granted, Fits, NoneFits, HasRoom, allocate-Granted}
use cross_shim.Heap.Release.{Released, free-Released}
use cross_shim.Heap.Overflow.{Wraps, allocate_wraps}
use cross_shim.Heap.Reach.{here, next, allocates, frees, Reach-IsValid}

-- Two live blocks with a free one between them.
abbrev pub small : HeapAllocator
small = record {
  base = 4096;
  size = 65536;
  high_water_mark = 4192;
  allocations = (4096, 32) ∷ (4160, 32) ∷ [];
  free_blocks = (4128, 32) ∷ [];
  free_blocks_by_size = (32, 4128) ∷ [];
}

pub small-IsValid : IsValid small
unfolding lookup MultiMap.count
small-IsValid = record {
  positive = omega arith;
  limit = omega arith;
  low = omega arith;
  high = omega arith;
  frees = λ a s e. ground arith;
  lives = λ a s e. ground arith;
  gaps = λ a s b t e f. ground arith;
  apart = λ a s b t e f. ground arith;
  mixed = λ a s b t e f. ground arith;
  index = λ a s. ground arith;
  sorted = (omega arith, tt);
}

fits : (n : ℕ) → 0 < n → n < 65536 → Fits small n 16
fits n pos le = record { power = (4, omega arith, refl); nonzero = pos; room = omega arith }

small-Live : Live small 4096 32
unfolding lookup
small-Live = refl

-- The free block is reused, and the rest of it given back.
reuse : (allocate small 10 16).1 ≡ 4128
unfolding allocate find_fit MultiMap.lower_bound align_up add64 sub64 not64
reuse = refl

allocate-Granted_example :
    let out = allocate small 100 16 in
    Granted small 100 16 out.1 out.0
    ⊎ (NoneFits small 100 16 × (¬ HasRoom small 100 16) × (out ≡ (small, 0)))
allocate-Granted_example =
    allocate-Granted small 100 16 small-IsValid (fits 100 (omega arith) (omega arith))

free-Released_example : Released small 4096 32 (free small 4096)
free-Released_example = free-Released small 4096 32 small-IsValid small-Live

freed-Fits : Fits (free small 4096) 24 16
freed-Fits =
    let r = free-Released small 4096 32 small-IsValid small-Live in
    record {
      power = (4, omega arith, refl);
      nonzero = omega arith;
      room = omega (arith, r.same_base, r.same_size);
    }

-- `malloc(SIZE_MAX)`
small-Wraps : Wraps small (2 ^ 64 - 1) 16
unfolding align_up add64 sub64 not64
small-Wraps = record {
  word = omega arith;
  address = omega arith;
  wraps = omega arith;
  small = omega arith;
}

allocate_wraps_example :
    let out = allocate small (2 ^ 64 - 1) 16 in
    let r = align_up 4192 16 in (out.1 ≡ r) × Live out.0 r (2 ^ 64 - 1) × (¬ IsValid out.0)
allocate_wraps_example = allocate_wraps small (2 ^ 64 - 1) 16 small-IsValid small-Wraps

Reach-IsValid_example : IsValid (free (allocate small 100 16).0 4160)
Reach-IsValid_example =
    Reach-IsValid {h = small}
      (next (next here (allocates small 100 16 (fits 100 (omega arith) (omega arith))))
        (frees (allocate small 100 16).0 4160))
      small-IsValid
