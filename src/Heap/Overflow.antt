-- ===== src/Heap/Overflow.antt =====
-- The end of a block in HeapAllocator::allocate is computed modulo 2^64 before it is compared with
-- the end of the heap.
use cross_shim.Base.{ℕ, ◌+◌, ◌-◌, ◌*◌, ◌≤◌, ◌<◌, ◌≡◌, refl, Option, none, some, arith, ltb, false}
use cross_shim.Base.Word.{u64_mod, add64, add64_lem, align_up}
use cross_shim.Container.Dict.{lookup-insert}
use cross_shim.Container.MultiMap
use cross_shim.Heap.{HeapAllocator, find_fit, track, extend, choose, at_least_one, allocate}
use cross_shim.Heap.Invariant.{IsValid, Live}
use cross_shim.Heap.Allocate.{fit_in-Free}

-- The sum of the first fresh address and the size does not fit a word.
pub record Wraps (h : HeapAllocator) (n al : ℕ) : Type 0 where
  pub word : n < u64_mod
  pub address : align_up h.high_water_mark al ≤ h.base + h.size
  pub wraps : u64_mod ≤ align_up h.high_water_mark al + n
  pub small : 2 * (h.base + h.size) < u64_mod

wrapped : (r n : ℕ) → r + n < u64_mod + u64_mod → u64_mod ≤ r + n → add64 r n ≡ r + n - u64_mod
unfolding add64
wrapped r n lt le = omega arith

module _ (h : HeapAllocator) (n al : ℕ) (v : IsValid h) (w : Wraps h n al) where
  no_fit :
      (q : Option (ℕ × ℕ))
      → find_fit n al (MultiMap.lower_bound n h.free_blocks_by_size) ≡ q
      → choose h n al q ≡ extend h n al
  unfolding choose
  no_fit none e = refl
  no_fit (some (s, a)) e =
      let (block, le) = fit_in-Free h n al v s a e in
      absurd (omega (arith, v.frees a s block, v.high, w.wraps, w.address, w.small))

  extend_wraps :
      let r = align_up h.high_water_mark al in
      extend h n al ≡ (track (record h { high_water_mark = r + n - u64_mod }) r n, r)
  unfolding extend
  extend_wraps =
      let r = align_up h.high_water_mark al in
      let end : add64 r n ≡ r + n - u64_mod =
        wrapped r n (omega (arith, w.address, w.word, v.limit)) w.wraps in
      let top : add64 h.base h.size ≡ h.base + h.size = add64_lem _ _ v.limit in
      let passes : ltb (h.base + h.size) (r + n - u64_mod) ≡ false =
        ground (arith, w.word, w.address) in
      rw (end, top, passes)

  allocate-extend : allocate h n al ≡ extend h n al
  unfolding allocate
  allocate-extend =
      let size : at_least_one n ≡ n = ground (arith, w.wraps, w.address, v.limit) in
      rw size (no_fit _ refl)

  abbrev wrapped_heap : HeapAllocator
  wrapped_heap = record h { high_water_mark = align_up h.high_water_mark al + n - u64_mod }

  tracked :
      Live (track wrapped_heap (align_up h.high_water_mark al) n) (align_up h.high_water_mark al) n
  unfolding track
  tracked =
      let r = align_up h.high_water_mark al in ground (arith, lookup-insert r r n h.allocations)

  outside : ¬ IsValid (track wrapped_heap (align_up h.high_water_mark al) n)
  unfolding track
  outside g = omega (arith, g.lives (align_up h.high_water_mark al) n tracked, w.wraps, w.word)

  -- On a valid heap, let the first fresh address, aligned, be at most the end of the heap, twice that
  -- end fit a word, and the size fit a word but be so large that the end of the block wraps. Then the
  -- request passes the check against the end of the heap: the result is the first fresh address, the block is
  -- recorded with its full size, and the heap is no longer valid.
  pub allocate_wraps :
      let out = allocate h n al in
      let r = align_up h.high_water_mark al in (out.1 ≡ r) × Live out.0 r n × (¬ IsValid out.0)
  allocate_wraps = rw (allocate-extend, extend_wraps) (refl, tracked, outside)
