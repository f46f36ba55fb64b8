-- ===== src/Search/Find.antt =====
-- tfind finds the node that the comparison function leads to.
use cross_shim.Base.{ℕ, zero, suc, ◌≤◌, ◌<◌, ◌≡◌, refl, ap, ◌∙◌, false, some, arith, inl, inr, ◌==◌}
use cross_shim.Base.Word.{add64_lem}
use cross_shim.Memory.{MemoryManager}
use cross_shim.Memory.Host.{Qemu}
use cross_shim.Search.{found, call_compar, load, tfind_loop, tfind}
use cross_shim.Search.Shape.{Tree, leaf, fork, depth, lookup, Holds, Ordering-cases}

module _ {G : Type 0} (q : Qemu G) (compar : ℕ → ℕ → ℕ) where
  pub tfind_loop-lookup :
      (fuel : ℕ) (m : MemoryManager G) (key p : ℕ) (t : Tree)
      → depth t ≤ fuel
      → Holds q m p t
      → tfind_loop q compar fuel m key p ≡ found (lookup compar key t)
  unfolding tfind_loop depth lookup
  tfind_loop-lookup zero m key p leaf enough h = rw h refl
  tfind_loop-lookup (suc fuel) m key p leaf enough h = rw h refl
  tfind_loop-lookup zero m key p (fork a k l r) enough h = absurd (omega arith)
  tfind_loop-lookup (suc fuel) m key p (fork a k l r) enough
        (is, pos, fits, here, (pl, left, hl), (pr, right, hr)) =
      let ihl = tfind_loop-lookup fuel m key pl l (omega arith) hl in
      let ihr = tfind_loop-lookup fuel m key pr r (omega arith) hr in
      let not_null : (a == 0) ≡ false = ground arith in
      let e8 = add64_lem a 8 (omega arith) in
      let e16 = add64_lem a 16 (omega arith) in
      ap (tfind_loop q compar (suc fuel) m key) is
      ∙ (elim (Ordering-cases (call_compar compar key k)) [
        | inl e ↦ rw (tfind_loop, not_null, here, lookup, e, e8, left) ihl
        | inr (inl e) ↦ rw (tfind_loop, not_null, here, lookup, e) refl
        | inr (inr e) ↦ rw (tfind_loop, not_null, here, lookup, e, e16, right) ihr
      ])

  -- If a tree stands in memory where `rootp` points, tfind on a round for each level of it returns
  -- the node that the comparison function leads to, or 0 if it leads to none.
  pub tfind-lookup :
      (m : MemoryManager G) (key rootp p : ℕ) (t : Tree)
      → 0 < rootp
      → load q m rootp ≡ some p
      → Holds q m p t
      → tfind q compar (depth t) m key rootp ≡ found (lookup compar key t)
  unfolding tfind
  tfind-lookup m key rootp p t pos root h =
      let not_null : (rootp == 0) ≡ false = ground arith in
      rw (tfind, not_null, root) (tfind_loop-lookup (depth t) m key p t (omega arith) h)
