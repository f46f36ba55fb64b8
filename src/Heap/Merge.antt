-- ===== src/Heap/Merge.antt =====
-- HeapAllocator::add_free_block, which merges a returned range with both neighbours.
use cross_shim.Base.{ℕ, ◌+◌, ◌≡◌, ◌≢◌, refl, inl, inr, Option, none, some, Bool-cases, arith, ◌==◌}
use cross_shim.Base.Word.{add64}
use cross_shim.Container.Dict
use cross_shim.Container.Dict.{lookup, lookup-erase, lookup-insert}
use cross_shim.Heap.{HeapAllocator, remove_free_block, merge_prev, merge_next, add_free_block}
use cross_shim.Heap.Invariant.{IsValid, Unowned, Free, remove-IsValid}
use cross_shim.Heap.Join.{Frame, Covered, IsNext, no_wrap, size_no_wrap, join_prev, merge_next-Kept}

-- The block before the range, if it ends there.
module _ {h : HeapAllocator} (v : IsValid h) (a s : ℕ) (u : Unowned h a s) where
  next_of-IsNext : IsNext h (a + s) (Dict.next_of a h.free_blocks)
  next_of-IsNext = go (Dict.next_of a h.free_blocks) refl
    where
      go : (q : Option (ℕ × ℕ)) → Dict.next_of a h.free_blocks ≡ q → IsNext h (a + s) q
      go none e = λ t f. ground (arith, Dict.next_of-none a (a + s) t h.free_blocks e f)
      go (some (k, w)) e = (
        (Dict.next_of-some a k w h.free_blocks e).0,
        λ t f. ground (
          arith,
          Dict.next_of-some a k w h.free_blocks e,
          Dict.next_of-least a k (a + s) w t h.free_blocks e f,
          u.not_free k w,
          v.frees k w,
          u.within,
        ),
      )

  -- Without a block that ends at `a`, only the successor is merged.
  alone-Kept :
      ((b t : ℕ) → Free h b t → b + t ≢ a)
      → IsValid (merge_next (h, a, s) (Dict.next_of a h.free_blocks))
        × Frame h a s (merge_next (h, a, s) (Dict.next_of a h.free_blocks))
        × Covered (merge_next (h, a, s) (Dict.next_of a h.free_blocks)) a s
  alone-Kept before = merge_next-Kept v a s u before _ next_of-IsNext

  next_of-IsNext_remove :
      (p t : ℕ)
      → Free h p t
      → p + t ≡ a
      → IsNext (remove_free_block h p t) (p + (t + s)) (Dict.next_of a h.free_blocks)
  unfolding remove_free_block
  next_of-IsNext_remove p t e touch = go (Dict.next_of a h.free_blocks) next_of-IsNext refl
    where
      range : p + (t + s) ≡ a + s
      range = omega arith

      go :
          (q : Option (ℕ × ℕ))
          → IsNext h (a + s) q
          → Dict.next_of a h.free_blocks ≡ q
          → IsNext (remove_free_block h p t) (p + (t + s)) q
      go none n x = rw range (λ w f. n w (ground (arith, lookup-erase p (a + s) h.free_blocks)))
      go (some (k, w)) (found, only) x = rw range (
        ground (
          arith,
          lookup-erase p k h.free_blocks,
          Dict.next_of-some a k w h.free_blocks x,
          v.frees p t e,
        ),
        λ c f. only c (ground (arith, lookup-erase p (a + s) h.free_blocks)),
      )

  -- With one, the range grows to it first.
  joined-Kept :
      (p t : ℕ)
      → Free h p t
      → p + t ≡ a
      → let g = merge_next (remove_free_block h p t, p, t + s) (Dict.next_of a h.free_blocks) in
        IsValid g × Frame (remove_free_block h p t) p (t + s) g × Covered g p (t + s)
  joined-Kept p t e q =
      merge_next-Kept (remove-IsValid v p t e) p (t + s) (join_prev v p t a s u e q)
        (unfold remove_free_block in
          λ b w f. ground (
            arith,
            lookup-erase p b h.free_blocks,
            v.gaps b w p t,
            v.gaps p t b w e,
            v.frees b w,
            v.frees p t e,
          ))
        _ (next_of-IsNext_remove p t e q)

  abbrev Added : HeapAllocator → Type 0
  Added g = IsValid g × Frame h a s g × Covered g a s

  joined-Frame :
      (p t : ℕ) (g : HeapAllocator)
      → Free h p t
      → p + t ≡ a
      → Frame (remove_free_block h p t) p (t + s) g
      → Frame h a s g
  unfolding remove_free_block
  joined-Frame p t g e q f = record {
    same_base = f.same_base;
    same_size = f.same_size;
    same_mark = f.same_mark;
    same_live = f.same_live;
    clear = λ c w pos d k b x y.
        f.clear c w pos (ground (arith, k p t e, v.frees p t e, u.within))
          (λ i z l. k i z (ground (arith, lookup-erase p i h.free_blocks))) b x y;
  }

  joined-Covered : (p t : ℕ) (g : HeapAllocator) → p + t ≡ a → Covered g p (t + s) → Covered g a s
  joined-Covered p t g q (b, w, e, lo, hi) = (b, w, e, omega arith, omega arith)

  -- A range that nobody owns can be given back.
  pub add_free_block-IsValid : Added (add_free_block h a s)
  unfolding add_free_block merge_prev
  add_free_block-IsValid = go (Dict.prev_of a h.free_blocks) refl
    where
      go :
          (r : Option (ℕ × ℕ))
          → Dict.prev_of a h.free_blocks ≡ r
          → Added (merge_next (merge_prev h a s r) (Dict.next_of a h.free_blocks))
      go none e =
          alone-Kept
            (λ b t f. ground (arith, Dict.prev_of-none a b t h.free_blocks e f, v.frees b t f))
      go (some (p, t)) e =
          let (found, lt) = Dict.prev_of-some a p t h.free_blocks e in
          let range = v.frees p t found in
          elim (Bool-cases (add64 p t == a)) [
            | inl hit ↦
                let touch : p + t ≡ a = ground (arith, no_wrap v p t range) in
                let joined =
                  merge_next (remove_free_block h p t, p, t + s) (Dict.next_of a h.free_blocks) in
                let k = joined-Kept p t found touch in
                rw (hit, size_no_wrap v p t a s range touch u.within)
                  (
                    k.0,
                    joined-Frame p t joined found touch k.1,
                    joined-Covered p t joined touch k.2,
                  )
            | inr miss ↦ rw miss (
                alone-Kept (λ b w f. ground (
                  arith,
                  no_wrap v p t range,
                  Dict.prev_of-greatest a p b t w h.free_blocks e f,
                  v.gaps b w p t f found,
                  v.frees b w f,
                )))
          ]
