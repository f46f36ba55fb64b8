-- ===== src/Heap/Invariant.antt =====
-- The invariant of the heap allocator, and the steps that keep it.
use cross_shim.Base.{
  ℕ, ◌+◌, ◌≤◌, ◌<◌, ◌≡◌, ◌≢◌, refl, ◌⊎◌, Option, none, some, arith, ◌==◌, if◌then◌else◌,
}
use cross_shim.Base.Word.{u64_mod}
use cross_shim.Container.Dict.{lookup, lookup-insert, lookup-erase}
use cross_shim.Container.MultiMap
use cross_shim.Container.MultiMap.{SortedFrom, count-insert, count-erase}
use cross_shim.Heap.{HeapAllocator, remove_free_block, put_free_block, track}

-- A block at an address, by what a dictionary holds there.
abbrev pub held : ℕ → Option ℕ → ℕ
held s none = 0
held s (some t) = if t == s then 1 else 0

abbrev pub Free : HeapAllocator → ℕ → ℕ → Type 0
Free h a s = lookup a h.free_blocks ≡ some s

abbrev pub Live : HeapAllocator → ℕ → ℕ → Type 0
Live h a s = lookup a h.allocations ≡ some s

abbrev pub Disjoint : ℕ → ℕ → ℕ → ℕ → Type 0
Disjoint a s b t = (a + s ≤ b) ⊎ (b + t ≤ a)

abbrev pub Within : HeapAllocator → ℕ → ℕ → Type 0
Within h a s = (0 < s) × (h.base ≤ a) × (a + s ≤ h.high_water_mark)

pub record IsValid (h : HeapAllocator) : Type 0 where
  pub positive : 0 < h.base
  pub limit : h.base + h.size < u64_mod
  pub low : h.base ≤ h.high_water_mark
  pub high : h.high_water_mark ≤ h.base + h.size
  -- Every block lies between the base and the high water mark.
  pub frees : (a s : ℕ) → Free h a s → Within h a s
  pub lives : (a s : ℕ) → Live h a s → Within h a s
  -- Between two free blocks there is a gap: neighbours have been merged.
  pub gaps : (a s b t : ℕ) → Free h a s → Free h b t → a < b → a + s < b
  -- Live blocks do not overlap, nor does a live one overlap a free one.
  pub apart : (a s b t : ℕ) → Live h a s → Live h b t → a < b → a + s ≤ b
  pub mixed : (a s b t : ℕ) → Live h a s → Free h b t → Disjoint a s b t
  -- The index by size has exactly the free blocks, in order.
  pub index : (a s : ℕ) → MultiMap.count s a h.free_blocks_by_size ≡ held s (lookup a h.free_blocks)
  pub sorted : SortedFrom 0 h.free_blocks_by_size

-- A range between the base and the high water mark that no block touches.
pub record Unowned (h : HeapAllocator) (a s : ℕ) : Type 0 where
  pub within : Within h a s
  pub not_free : (b t : ℕ) → Free h b t → Disjoint a s b t
  pub not_live : (b t : ℕ) → Live h b t → Disjoint a s b t

-- No free block ends where the range begins, or begins where it ends.
pub record Isolated (h : HeapAllocator) (a s : ℕ) : Type 0 where
  pub before : (b t : ℕ) → Free h b t → b + t ≢ a
  pub after : (t : ℕ) → ¬ Free h (a + s) t

module _ {h : HeapAllocator} (v : IsValid h) where
  module _ (a s : ℕ) (e : Free h a s) where
    pub remove-IsValid : IsValid (remove_free_block h a s)
    unfolding remove_free_block
    remove-IsValid = record {
      positive = v.positive;
      limit = v.limit;
      low = v.low;
      high = v.high;
      frees = λ b t f. v.frees b t (ground (arith, lookup-erase a b h.free_blocks));
      lives = v.lives;
      gaps = λ b t c w f g lt.
          v.gaps b t c w (ground (arith, lookup-erase a b h.free_blocks))
            (ground (arith, lookup-erase a c h.free_blocks)) lt;
      apart = v.apart;
      mixed = λ b t c w f g. v.mixed b t c w f (ground (arith, lookup-erase a c h.free_blocks));
      index = λ b t. ground (
        arith,
        lookup-erase a b h.free_blocks,
        count-erase s a t b h.free_blocks_by_size,
        v.index b t,
      );
      sorted = MultiMap.erase-SortedFrom 0 s a h.free_blocks_by_size v.sorted;
    }

    -- What is removed is owned by nobody.
    pub remove-Unowned : Unowned (remove_free_block h a s) a s
    unfolding remove_free_block
    remove-Unowned = record {
      within = v.frees a s e;
      not_free =
          λ b t f. ground (arith, lookup-erase a b h.free_blocks, v.gaps a s b t e, v.gaps b t a s);
      not_live = λ b t f. ground (arith, v.mixed b t a s f e);
    }

  module _ (a s : ℕ) (u : Unowned h a s) where
    pub fresh_free : lookup a h.free_blocks ≡ none
    fresh_free = go (lookup a h.free_blocks) refl
      where
        go : (r : Option ℕ) → lookup a h.free_blocks ≡ r → r ≡ none
        go none e = refl
        go (some t) e = ground (arith, u.not_free a t e, u.within, v.frees a t e)

    pub fresh_live : lookup a h.allocations ≡ none
    fresh_live = go (lookup a h.allocations) refl
      where
        go : (r : Option ℕ) → lookup a h.allocations ≡ r → r ≡ none
        go none e = refl
        go (some t) e = ground (arith, u.not_live a t e, u.within, v.lives a t e)

    pub put-IsValid : Isolated h a s → IsValid (put_free_block h a s)
    unfolding put_free_block
    put-IsValid i = record {
      positive = v.positive;
      limit = v.limit;
      low = v.low;
      high = v.high;
      frees = λ b t f. ground (arith, lookup-insert a b s h.free_blocks, v.frees b t, u.within);
      lives = v.lives;
      gaps = λ b t c w f g lt. ground (
        arith,
        lookup-insert a b s h.free_blocks,
        lookup-insert a c s h.free_blocks,
        v.gaps b t c w,
        u.within,
        u.not_free b t,
        u.not_free c w,
        i.before b t,
        i.after w,
        v.frees b t,
        v.frees c w,
      );
      apart = v.apart;
      mixed = λ b t c w f g.
          ground (arith, lookup-insert a c s h.free_blocks, v.mixed b t c w f, u.not_live b t f);
      index = λ b t. ground (
        arith,
        lookup-insert a b s h.free_blocks,
        count-insert s a t b h.free_blocks_by_size,
        v.index b t,
        fresh_free,
      );
      sorted = MultiMap.insert-SortedFrom 0 s a h.free_blocks_by_size (omega arith) v.sorted;
    }

    pub track-IsValid : IsValid (track h a s)
    unfolding track
    track-IsValid = record {
      positive = v.positive;
      limit = v.limit;
      low = v.low;
      high = v.high;
      frees = v.frees;
      lives = λ b t f. ground (arith, lookup-insert a b s h.allocations, v.lives b t, u.within);
      gaps = v.gaps;
      apart = λ b t c w f g lt. ground (
        arith,
        lookup-insert a b s h.allocations,
        lookup-insert a c s h.allocations,
        v.apart b t c w,
        u.within,
        u.not_live b t,
        u.not_live c w,
        v.lives b t,
        v.lives c w,
      );
      mixed = λ b t c w f g.
          ground (arith, lookup-insert a b s h.allocations, v.mixed b t c w, u.not_free c w g);
      index = v.index;
      sorted = v.sorted;
    }
