-- ===== src/Hle/Alloc/Calloc.antt =====
-- calloc: the block it takes and the bytes it clears.
use cross_shim.Base.{
  ℕ, zero, suc, ◌+◌, ◌-◌, ◌*◌, ◌≤◌, ◌<◌, ◌≡◌, ◌≢◌, refl, ◌∙◌, false, none, some, ◌⊎◌, inl, inr,
  arith, ◌==◌, ltb, min, length, replicate, length-replicate, Bool-cases, Option-cases, List,
}
use cross_shim.Base.Word.{u64_mod, add64, mul64}
use cross_shim.Heap
use cross_shim.Heap.{at_least_one}
use cross_shim.Heap.Allocate.{Granted, Fits}
use cross_shim.Heap.Release.{allocate_positive}
use cross_shim.Memory.{MemoryManager, read, write, write_host, zero_loop, zero_memory, zero_chunk}
use cross_shim.Memory.Host.{Qemu}
use cross_shim.Memory.Guest.{allocate_guest_memory}
use cross_shim.Memory.Allocate.{map_refused}
use cross_shim.Memory.Region.{MemoryRegion, holds_range, find_region}
use cross_shim.Memory.ReadWrite.{NoGuest, read-write}
use cross_shim.Memory.Zero.{Separate, find_part, zero_memory-write}
use cross_shim.Heap.Invariant.{IsValid, Live}
use cross_shim.Hle.Alloc.{Process, calloc}

module _ {G : Type 0} (q : Qemu G) where
  write-heap :
      (m m' : MemoryManager G) (a : ℕ) (bs : List ℕ) → write q m a bs ≡ some m' → m'.heap ≡ m.heap
  unfolding write write_host
  write-heap m m' a bs e = ground arith

  zero_loop-heap :
      (fuel : ℕ) (m : MemoryManager G) (a n c i : ℕ) → (zero_loop q fuel m a n c i).0.heap ≡ m.heap
  unfolding zero_loop
  zero_loop-heap zero m a n c i = refl
  zero_loop-heap (suc fuel) m a n c i = elim (Bool-cases (ltb i n)) [
    | inr e ↦ rw (e, zero_loop) refl
    | inl e ↦ elim (Option-cases (write q m (add64 a i) (replicate (min (n - i) c) 0))) [
      | inl w ↦ rw (e, zero_loop, w) refl
      | inr (m', w) ↦
          rw (e, zero_loop, w)
            (zero_loop-heap fuel m' a n c (i + min (n - i) c) ∙ write-heap m m' _ _ w)
    ]
  ]

  zero_memory-heap : (m : MemoryManager G) (a n : ℕ) → (zero_memory q m a n).0.heap ≡ m.heap
  unfolding zero_memory
  zero_memory-heap m a n = zero_loop-heap (suc n) m a n (min n zero_chunk) 0

  module _ (p : Process G) (nmemb size : ℕ) where
    abbrev total : ℕ
    total = mul64 nmemb size

    -- The request from the heap, and what the handler makes of it.
    abbrev block : ℕ
    block = (Heap.allocate p.memory.heap (at_least_one total) 16).1

    abbrev taken : MemoryManager G
    taken = record p.memory { heap = (Heap.allocate p.memory.heap (at_least_one total) 16).0 }

    short : u64_mod ≤ nmemb * size → at_least_one total < nmemb * size
    unfolding mul64
    short le = ground arith

    calloc_zero :
        (Heap.allocate p.memory.heap (at_least_one total) 16) ≡ (p.memory.heap, 0)
        → (calloc q p nmemb size none).x0 ≡ 0
    unfolding calloc allocate_guest_memory
    calloc_zero e = rw (e, map_refused q p.memory (at_least_one total) 16) refl

    calloc_done :
        block ≢ 0
        → ((calloc q p nmemb size none).x0 ≡ block)
          × ((calloc q p nmemb size none).process.memory ≡ (zero_memory q taken block total).0)
    unfolding calloc allocate_guest_memory
    calloc_done nz = let z : (block == 0) ≡ false = ground (arith, nz) in rw (z, z) (refl, refl)

    calloc-Granted :
        (r : MemoryRegion)
        → IsValid p.memory.heap
        → NoGuest q p.memory
        → Separate p.memory.regions
        → find_region (holds_range p.memory.heap.base p.memory.heap.size) p.memory.regions ≡ some r
        → 0 < total
        → Granted p.memory.heap (at_least_one total) 16 block taken.heap
        → let out = calloc q p nmemb size none in
          Live out.process.memory.heap out.x0 (at_least_one total)
          × (read q out.process.memory out.x0 total ≡ some (replicate total 0))
    calloc-Granted r v off sep e pos g =
        let one : at_least_one total ≡ total = ground arith in
        let m = p.memory in
        let found =
          find_part m.heap.base m.heap.size block total m.regions r v.limit sep g.above
            (omega (arith, g.below)) pos e in
        let (ok, cleared) =
          zero_memory-write q taken block total r off sep (omega (arith, g.below, v.limit)) found in
        let same : (zero_memory q taken block total).0.heap ≡ taken.heap =
          zero_memory-heap taken block total in
        let back =
          read-write q taken (zero_memory q taken block total).0 block (replicate total 0) off
            cleared in
        let (at, left) = calloc_done (λ z. omega (arith, g.above, v.positive)) in
        let live : Live taken.heap block (at_least_one total) = ground (arith, g.live block) in
        let len : length {A = ℕ} (replicate total 0) ≡ total = length-replicate total 0 in
        rw (at, left) (rw same live, rw len at back)

    -- While QEMU has no processor and mmap gives no pages, and if the regions do not overlap, one
    -- of them holds the heap, the heap is valid and no sum of the request wraps: a `calloc` whose
    -- product is not 0 and does not wrap returns 0, or a live block of that many bytes, all of
    -- which read as 0.
    pub calloc-read :
        (r : MemoryRegion)
        → IsValid p.memory.heap
        → Fits p.memory.heap (nmemb * size) 16
        → nmemb * size < u64_mod
        → NoGuest q p.memory
        → Separate p.memory.regions
        → find_region (holds_range p.memory.heap.base p.memory.heap.size) p.memory.regions ≡ some r
        → let out = calloc q p nmemb size none in
          (out.x0 ≡ 0)
          ⊎ (Live out.process.memory.heap out.x0 (nmemb * size)
              × (read q out.process.memory out.x0 (nmemb * size)
                  ≡ some (replicate (nmemb * size) 0)))
    unfolding mul64
    calloc-read r v f lt off sep e =
        let same : total ≡ nmemb * size = omega arith in
        let one : at_least_one total ≡ nmemb * size = ground (arith, f.nonzero) in
        let pos : 0 < total = omega (arith, f.nonzero) in
        elim (allocate_positive p.memory.heap (at_least_one total) 16 v (rw one f)) [
          | inl g ↦
              let (live, back) = calloc-Granted r v off sep e pos g in
              inr (rw one at live, rw same at back)
          | inr (_, _, z) ↦ inl (calloc_zero z)
        ]

    -- If the product of the arguments is 2^64 or more, on a valid heap, with no sum of the
    -- shortened request wrapping and while mmap gives no pages, `calloc` returns 0 or a live block
    -- that is shorter than the product.
    pub calloc_wraps :
        IsValid p.memory.heap
        → Fits p.memory.heap (at_least_one total) 16
        → u64_mod ≤ nmemb * size
        → let out = calloc q p nmemb size none in
          (out.x0 ≡ 0) ⊎ ((n : ℕ) × Live out.process.memory.heap out.x0 n × (n < nmemb * size))
    calloc_wraps v f le = elim (allocate_positive p.memory.heap (at_least_one total) 16 v f) [
      | inl g ↦
          let (at, left) = calloc_done (λ z. omega (arith, g.above, v.positive)) in
          let live : Live taken.heap block (at_least_one total) = ground (arith, g.live block) in
          inr (at_least_one total, rw (at, left, zero_memory-heap taken block total) live, short le)
      | inr (_, _, e) ↦ inl (calloc_zero e)
    ]
