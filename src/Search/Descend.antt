-- ===== src/Search/Descend.antt =====
-- tsearch in a tree: the new node is attached at the end of the path, and nothing else changes.
use Prim.Native.Nat.{lt, eq, gt}
use cross_shim.Base.{
  ℕ, zero, suc, ◌+◌, ◌≤◌, ◌<◌, ◌≡◌, refl, ap, sym, subst, ◌∙◌, true, false, some, arith, inl, inr,
  ◌==◌, if◌then◌else◌,
}
use cross_shim.Base.Word.{u64_mod, add64_lem}
use cross_shim.Memory.{MemoryManager}
use cross_shim.Memory.Host.{Qemu}
use cross_shim.Memory.ReadWrite.{Apart}
use cross_shim.Search.{Insertion, placed, call_compar, load, attach, tsearch_loop}
use cross_shim.Memory.Running.{Debug, Sound, Writable}
use cross_shim.Search.Shape.{
  Tree, leaf, fork, depth, insert, Away, WordAway, Disjoint, Separate, Away-WordAway, Holds,
  Outside, Outside-Holds, Ordering-cases,
}
use cross_shim.Search.Insert.{given, Room, TreeWritable, attach-Fresh}

-- The address that tsearch returns.
unfoldable pub landed : (ℕ → ℕ → ℕ) → ℕ → ℕ → Tree → ℕ
landed compar key n leaf = n
landed compar key n (fork a k l r) = elim (call_compar compar key k) [
  | eq ↦ a
  | lt ↦ landed compar key n l
  | gt ↦ landed compar key n r
]

module _ {G : Type 0} (q : Qemu G) (compar : ℕ → ℕ → ℕ) where
  -- A run that inserts into the tree at `p`.
  abbrev pub Inserted : MemoryManager G → ℕ → ℕ → Tree → Insertion G → Type 0
  Inserted m key p t r =
      (m' : MemoryManager G) × (r ≡ placed m' (landed compar key (given q m) t))
      × Sound q m'
      × Holds q m' p (insert compar key (given q m) t)
      × Outside q m m' (given q m) t

  -- A run that inserts into the tree whose address stands at `place`.
  abbrev pub InsertedAt : MemoryManager G → ℕ → ℕ → Tree → Insertion G → Type 0
  InsertedAt m key place t r =
      (m' : MemoryManager G) × (next : ℕ) × (r ≡ placed m' (landed compar key (given q m) t))
      × Sound q m'
      × (load q m' place ≡ some next)
      × Holds q m' next (insert compar key (given q m) t)
      × ((b : ℕ)
          → b + 8 < u64_mod
          → Apart b 8 (given q m) 24
          → WordAway b t
          → Apart b 8 place 8
          → load q m' b ≡ load q m b)

  module _ (laws : Debug q) (m : MemoryManager G) (key : ℕ) (sound : Sound q m)
      (room : Room q m (given q m)) (word : key < u64_mod) where
    pub descend :
        (fuel place next : ℕ) (t : Tree)
        → place + 8 < u64_mod
        → load q m place ≡ some next
        → Writable q m place
        → Apart place 8 (given q m) 24
        → WordAway place t
        → Holds q m next t
        → (0 < next → Inserted m key next t (tsearch_loop q compar fuel m key next))
        → InsertedAt m key place t
            (if next == 0 then attach q m key place else tsearch_loop q compar fuel m key next)
    unfolding landed insert
    descend fuel place next leaf fits there able d w h rec =
        let (m', is, sound', holds, stored, same) =
          attach-Fresh q laws m key place sound room word fits able d in
        let null : (next == 0) ≡ true = ground arith in
        rw null
          (m', given q m, is, sound', stored, holds, λ b fb away _ other. same b fb away other)
    descend fuel place next (fork a k l r) fits there able d w h rec =
        let (m', is, sound', holds, outside) = rec (omega (arith, h.0, h.1)) in
        let not_null : (next == 0) ≡ false = ground (arith, h.0, h.1) in
        rw not_null (
          m',
          next,
          is,
          sound',
          outside place fits d w ∙ there,
          holds,
          λ b fb away clear _. outside b fb away clear,
        )

    -- A tree and the root of the one beside it.
    Disjoint-root : (a k : ℕ) (l r : Tree) → Away a r → Disjoint r l → Disjoint r (fork a k l leaf)
    Disjoint-root a k l leaf w d = tt
    Disjoint-root a k l (fork b j rl rr) (w, wl, wr) (d, dl, dr) =
        ((omega arith, d, tt), Disjoint-root a k l rl wl dl, Disjoint-root a k l rr wr dr)

    -- The other subtree stays.
    beside :
        (m' : MemoryManager G) (a k p place : ℕ) (l r : Tree)
        → a ≤ place
        → place + 8 ≤ a + 24
        → Away a r
        → Disjoint r l
        → Away (given q m) r
        → ((b : ℕ)
            → b + 8 < u64_mod
            → Apart b 8 (given q m) 24
            → WordAway b l
            → Apart b 8 place 8
            → load q m' b ≡ load q m b)
        → Holds q m p r
        → Holds q m' p r
    beside m' a k p place l r lo hi w d away same h =
        Outside-Holds q m m' (given q m) p r (fork a k l leaf)
          (λ b fb clear (off, left, _). same b fb clear left (omega arith)) away
          (Disjoint-root a k l r w d) h

    -- A node whose left subtree has grown, and one whose right subtree has.
    module _ (a k : ℕ) (l r : Tree) (separate : Separate (fork a k l r))
        (clear : Away (given q m) (fork a k l r)) (h : Holds q m a (fork a k l r)) where
      grow_left :
          (run : Insertion G)
          → call_compar compar key k ≡ lt
          → InsertedAt m key (a + 8) l run
          → Inserted m key a (fork a k l r) run
      unfolding insert landed
      grow_left run e (m', next, is, sound', stored, holds, same) =
          let (al, ar, lr, rl, sl, sr) = separate in
          let (here_only, pos, fits, here, (pl, left, hl), (pr, right, hr)) = h in
          let grown : insert compar key (given q m) (fork a k l r)
              ≡ fork a k (insert compar key (given q m) l) r =
            rw (insert, e) refl in
          let reached : landed compar key (given q m) (fork a k l r)
              ≡ landed compar key (given q m) l =
            rw (landed, e) refl in
          let keep = λ (c : ℕ) (lo : a ≤ c) (hi : c + 8 ≤ a + 24) (o : Apart c 8 (a + 8) 8).
            same c (omega (arith, clear)) (omega (arith, clear)) (Away-WordAway a c l lo hi al) o in
          (
            m',
            is ∙ ap (placed m') (sym reached),
            sound',
            subst (Holds q m' a) (sym grown) (
              refl,
              pos,
              fits,
              keep a (omega arith) (omega arith) (omega arith) ∙ here,
              (next, stored, holds),
              (
                pr,
                keep (a + 16) (omega arith) (omega arith) (omega arith) ∙ right,
                beside m' a k pr (a + 8) l r (omega arith) (omega arith) ar rl clear.2 same hr,
              ),
            ),
            λ b fb c (own, wl, wr). same b fb c wl (omega arith),
          )

      grow_right :
          (run : Insertion G)
          → call_compar compar key k ≡ gt
          → InsertedAt m key (a + 16) r run
          → Inserted m key a (fork a k l r) run
      unfolding insert landed
      grow_right run e (m', next, is, sound', stored, holds, same) =
          let (al, ar, lr, rl, sl, sr) = separate in
          let (here_only, pos, fits, here, (pl, left, hl), (pr, right, hr)) = h in
          let grown : insert compar key (given q m) (fork a k l r)
              ≡ fork a k l (insert compar key (given q m) r) =
            rw (insert, e) refl in
          let reached : landed compar key (given q m) (fork a k l r)
              ≡ landed compar key (given q m) r =
            rw (landed, e) refl in
          let keep = λ (c : ℕ) (lo : a ≤ c) (hi : c + 8 ≤ a + 24) (o : Apart c 8 (a + 16) 8).
            same c (omega (arith, clear)) (omega (arith, clear)) (Away-WordAway a c r lo hi ar) o in
          (
            m',
            is ∙ ap (placed m') (sym reached),
            sound',
            subst (Holds q m' a) (sym grown) (
              refl,
              pos,
              fits,
              keep a (omega arith) (omega arith) (omega arith) ∙ here,
              (
                pl,
                keep (a + 8) (omega arith) (omega arith) (omega arith) ∙ left,
                beside m' a k pl (a + 16) r l (omega arith) (omega arith) al lr clear.1 same hl,
              ),
              (next, stored, holds),
            ),
            λ b fb c (own, wl, wr). same b fb c wr (omega arith),
          )

      stay :
          (run : Insertion G)
          → call_compar compar key k ≡ eq
          → run ≡ placed m a
          → Inserted m key a (fork a k l r) run
      unfolding insert landed
      stay run e is =
          let grown : insert compar key (given q m) (fork a k l r) ≡ fork a k l r =
            rw (insert, e) refl in
          let reached : landed compar key (given q m) (fork a k l r) ≡ a = rw (landed, e) refl in
          (
            m,
            is ∙ ap (placed m) (sym reached),
            sound,
            subst (Holds q m a) (sym grown) h,
            λ b fb c w. refl,
          )

    pub tsearch_loop-Inserted :
        (fuel p : ℕ) (t : Tree)
        → 0 < p
        → depth t ≤ fuel
        → Away (given q m) t
        → Separate t
        → TreeWritable q m t
        → Holds q m p t
        → Inserted m key p t (tsearch_loop q compar fuel m key p)
    unfolding tsearch_loop depth
    tsearch_loop-Inserted fuel p leaf pos enough away separate able h = absurd (omega (arith, h))
    tsearch_loop-Inserted zero p (fork a k l r) pos enough away separate able h =
        absurd (omega arith)
    tsearch_loop-Inserted (suc fuel) p (fork a k l r) pos enough (away, away_l, away_r)
          (al, ar, lr, rl, sl, sr) (able8, able16, able_l, able_r)
          (is, a_pos, fits, here, (pl, left, hl), (pr, right, hr)) =
        let separate : Separate (fork a k l r) = (al, ar, lr, rl, sl, sr) in
        let clear : Away (given q m) (fork a k l r) = (away, away_l, away_r) in
        let h : Holds q m a (fork a k l r) =
          (refl, a_pos, fits, here, (pl, left, hl), (pr, right, hr)) in
        let recl = λ (more : 0 < pl).
          tsearch_loop-Inserted fuel pl l more (omega arith) away_l sl able_l hl in
        let recr = λ (more : 0 < pr).
          tsearch_loop-Inserted fuel pr r more (omega arith) away_r sr able_r hr in
        let below_l =
          descend fuel (a + 8) pl l (omega arith) left able8 (omega arith)
            (Away-WordAway a (a + 8) l (omega arith) (omega arith) al) hl recl in
        let below_r =
          descend fuel (a + 16) pr r (omega arith) right able16 (omega arith)
            (Away-WordAway a (a + 16) r (omega arith) (omega arith) ar) hr recr in
        let not_null : (a == 0) ≡ false = ground arith in
        let e8 = add64_lem a 8 (omega arith) in
        let e16 = add64_lem a 16 (omega arith) in
        subst (λ i. Inserted m key i (fork a k l r) (tsearch_loop q compar (suc fuel) m key i))
          (sym is)
          (elim (Ordering-cases (call_compar compar key k)) [
            | inl e ↦
                grow_left a k l r separate clear h _ e
                  (rw (tsearch_loop, not_null, here, e, e8, left, e8) below_l)
            | inr (inl e) ↦
                stay a k l r separate clear h _ e (rw (tsearch_loop, not_null, here, e) refl)
            | inr (inr e) ↦
                grow_right a k l r separate clear h _ e
                  (rw (tsearch_loop, not_null, here, e, e16, right, e16) below_r)
          ])
