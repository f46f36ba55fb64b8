-- ===== src/Heap/Join.antt =====
-- The two merges of HeapAllocator::add_free_block, one at a time.
use cross_shim.Base.{
  ℕ, ◌+◌, ◌≤◌, ◌<◌, ◌≡◌, ◌≢◌, refl, inl, inr, Option, none, some, Bool-cases, arith, ◌==◌,
}
use cross_shim.Base.Word.{add64, add64_lem}
use cross_shim.Container.Dict
use cross_shim.Container.Dict.{lookup, lookup-erase, lookup-insert}
use cross_shim.Heap.{HeapAllocator, remove_free_block, put_free_block, merge_next}
use cross_shim.Heap.Invariant.{
  IsValid, Unowned, Free, Disjoint, Within, remove-IsValid, put-IsValid,
}

-- What giving the range `a`, `s` back leaves alone.
pub record Frame (h : HeapAllocator) (a s : ℕ) (g : HeapAllocator) : Type 0 where
  pub same_base : g.base ≡ h.base
  pub same_size : g.size ≡ h.size
  pub same_mark : g.high_water_mark ≡ h.high_water_mark
  pub same_live : g.allocations ≡ h.allocations
  -- A range that is clear of the free blocks and of the returned range stays clear.
  pub clear :
      (c w : ℕ)
      → 0 < w
      → Disjoint a s c w
      → ((b t : ℕ) → Free h b t → Disjoint b t c w)
      → (b t : ℕ) → Free g b t
      → Disjoint b t c w

-- Some free block holds the whole range.
abbrev pub Covered : HeapAllocator → ℕ → ℕ → Type 0
Covered g a s = (b : ℕ) × (t : ℕ) × Free g b t × (b ≤ a) × (a + s ≤ b + t)

-- `q` is an entry of the free list, and it is the block at `end` if there is one.
abbrev pub IsNext : HeapAllocator → ℕ → Option (ℕ × ℕ) → Type 0
IsNext h end none = (t : ℕ) → ¬ Free h end t
IsNext h end (some (k, w)) = Free h k w × ((t : ℕ) → Free h end t → k ≡ end)

pub put-Covered :
    (h : HeapAllocator) (x y a s : ℕ) → x ≤ a → a + s ≤ x + y → Covered (put_free_block h x y) a s
unfolding put_free_block
put-Covered h x y a s lo hi = (x, y, ground (arith, lookup-insert x x y h.free_blocks), lo, hi)

module _ {h : HeapAllocator} (v : IsValid h) where
  -- Ends of blocks do not wrap.
  pub no_wrap : (a s : ℕ) → Within h a s → add64 a s ≡ a + s
  no_wrap a s w = add64_lem a s (omega (arith, v.high, v.limit, w.2))

  pub size_no_wrap : (a s b t : ℕ) → Within h a s → a + s ≡ b → Within h b t → add64 s t ≡ s + t
  size_no_wrap a s b t w e w' = add64_lem s t (omega (arith, v.high, v.limit, w'.2))

  -- A range and the free block behind it, the block taken out of the indices.
  pub join_next :
      (a s t : ℕ)
      → Unowned h a s
      → Free h (a + s) t
      → Unowned (remove_free_block h (a + s) t) a (s + t)
  unfolding remove_free_block
  join_next a s t u e =
      let block = v.frees (a + s) t e in
      record {
        within = (omega (arith, u.within), omega (arith, u.within), omega (arith, block));
        not_free = λ b w f. ground (
          arith,
          lookup-erase (a + s) b h.free_blocks,
          u.not_free b w,
          v.gaps (a + s) t b w e,
          v.frees b w,
          u.within,
        );
        not_live = λ b w f.
            ground (arith, u.not_live b w f, v.mixed b w (a + s) t f e, v.lives b w f, u.within);
      }

  -- The same for the free block before it.
  pub join_prev :
      (p t a s : ℕ)
      → Unowned h a s
      → Free h p t
      → p + t ≡ a
      → Unowned (remove_free_block h p t) p (t + s)
  unfolding remove_free_block
  join_prev p t a s u e q =
      let block = v.frees p t e in
      record {
        within = (omega arith, block.1, omega (arith, u.within));
        not_free = λ b w f. ground (
          arith,
          lookup-erase p b h.free_blocks,
          u.not_free b w,
          v.gaps p t b w e,
          v.gaps b w p t,
          v.frees b w,
          u.within,
        );
        not_live =
            λ b w f. ground (arith, u.not_live b w f, v.mixed b w p t f e, v.lives b w f, u.within);
      }

  pub put-Frame : (a s : ℕ) → Frame h a s (put_free_block h a s)
  unfolding put_free_block
  put-Frame a s = record {
    same_base = refl;
    same_size = refl;
    same_mark = refl;
    same_live = refl;
    clear = λ c w pos d f b t e. ground (arith, lookup-insert a b s h.free_blocks, f b t);
  }

  module _ (a s : ℕ) (u : Unowned h a s) (before : (b t : ℕ) → Free h b t → b + t ≢ a) where
    merge-IsValid :
        (t : ℕ)
        → Free h (a + s) t
        → IsValid (put_free_block (remove_free_block h (a + s) t) a (s + t))
    unfolding remove_free_block
    merge-IsValid t e =
        put-IsValid (remove-IsValid v (a + s) t e) a (s + t) (join_next a s t u e) (record {
          before = λ b w f. before b w (ground (arith, lookup-erase (a + s) b h.free_blocks));
          after = λ w f. ground (
            arith,
            lookup-erase (a + s) (a + (s + t)) h.free_blocks,
            v.gaps (a + s) t (a + (s + t)) w e,
            v.frees (a + s) t e,
          );
        })

    merge-Frame :
        (t : ℕ)
        → Free h (a + s) t
        → Frame h a s (put_free_block (remove_free_block h (a + s) t) a (s + t))
    unfolding remove_free_block put_free_block
    merge-Frame t e = record {
      same_base = refl;
      same_size = refl;
      same_mark = refl;
      same_live = refl;
      clear = λ c w pos d f b x g. ground (
        arith,
        lookup-insert a b (s + t) (Dict.erase (a + s) h.free_blocks),
        lookup-erase (a + s) b h.free_blocks,
        f b x,
        f (a + s) t e,
        v.frees (a + s) t e,
        u.within,
      );
    }

    abbrev Kept : HeapAllocator → Type 0
    Kept g = IsValid g × Frame h a s g × Covered g a s

    pub merge_next-Kept : (q : Option (ℕ × ℕ)) → IsNext h (a + s) q → Kept (merge_next (h, a, s) q)
    unfolding merge_next
    merge_next-Kept none n = (
      put-IsValid v a s u (record { before = before; after = n }),
      put-Frame a s,
      put-Covered h a s a s (omega arith) (omega arith),
    )
    merge_next-Kept (some (k, w)) n = elim (Bool-cases (add64 a s == k)) [
      | inl hit ↦
          let touch : k ≡ a + s = ground (arith, no_wrap a s u.within) in
          let e : Free h (a + s) w = rw touch at (n.0) in
          let sum : add64 s w ≡ s + w = size_no_wrap a s (a + s) w u.within refl (v.frees _ w e) in
          rw (hit, touch, sum)
            (
              merge-IsValid w e,
              merge-Frame w e,
              put-Covered _ a (s + w) a s (omega arith) (omega arith),
            )
      | inr miss ↦ rw miss (
        put-IsValid v a s u (record {
          before = before;
          after = λ t f. ground (arith, no_wrap a s u.within, n.1 t f);
        }),
        put-Frame a s,
        put-Covered h a s a s (omega arith) (omega arith),
      )
    ]
