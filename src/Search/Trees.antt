-- ===== src/Search/Trees.antt =====
-- What tsearch promises of a tree in the guest's memory.
use Prim.Native.Nat.{eq}
use cross_shim.Base.{
  ℕ, ◌+◌, ◌%◌, ◌^◌, ◌<◌, ◌≡◌, refl, ap, sym, ◌∙◌, false, some, arith, inl, inr, ◌==◌,
}
use cross_shim.Base.Word.{u64_mod}
use cross_shim.Memory.{MemoryManager}
use cross_shim.Memory.Host.{Qemu}
use cross_shim.Memory.ReadWrite.{Apart}
use cross_shim.Search.{found, placed, call_compar, load, tfind, tsearch}
use cross_shim.Memory.Running.{Debug, Sound, Writable}
use cross_shim.Search.Shape.{
  Tree, leaf, fork, depth, lookup, insert, Away, WordAway, Disjoint, Separate, Holds,
  Ordering-cases,
}
use cross_shim.Search.Find.{tfind-lookup}
use cross_shim.Search.Insert.{given, Room, TreeWritable}
use cross_shim.Search.Descend.{landed, descend, tsearch_loop-Inserted}

module _ (compar : ℕ → ℕ → ℕ) (key n : ℕ) where
  lookup-insert :
      (t : Tree)
      → call_compar compar key key ≡ eq
      → lookup compar key (insert compar key n t) ≡ landed compar key n t
  unfolding lookup insert landed
  lookup-insert leaf same = rw (insert, lookup, same) refl
  lookup-insert (fork a k l r) same = elim (Ordering-cases (call_compar compar key k)) [
    | inl e ↦ rw (insert, e) (rw (landed, lookup, e) (lookup-insert l same))
    | inr (inl e) ↦ rw (insert, e) (rw (landed, lookup, e) refl)
    | inr (inr e) ↦ rw (insert, e) (rw (landed, lookup, e) (lookup-insert r same))
  ]

  Away-insert : (b : ℕ) (t : Tree) → Apart b 24 n 24 → Away b t → Away b (insert compar key n t)
  unfolding insert
  Away-insert b leaf d w = (d, tt, tt)
  Away-insert b (fork a k l r) d (own, wl, wr) = elim (Ordering-cases (call_compar compar key k)) [
    | inl e ↦ rw (insert, e) (own, Away-insert b l d wl, wr)
    | inr (inl e) ↦ rw (insert, e) (own, wl, wr)
    | inr (inr e) ↦ rw (insert, e) (own, wl, Away-insert b r d wr)
  ]

  Disjoint-insert : (s t : Tree) → Away n s → Disjoint s t → Disjoint s (insert compar key n t)
  Disjoint-insert leaf t w d = tt
  Disjoint-insert (fork a k l r) t (own, wl, wr) (d, dl, dr) =
      (Away-insert a t (omega arith) d, Disjoint-insert l t wl dl, Disjoint-insert r t wr dr)

  insert-Disjoint : (s t : Tree) → Away n s → Disjoint t s → Disjoint (insert compar key n t) s
  unfolding insert
  insert-Disjoint s leaf w d = (w, tt, tt)
  insert-Disjoint s (fork a k l r) w (own, dl, dr) =
      elim (Ordering-cases (call_compar compar key k)) [
        | inl e ↦ rw (insert, e) (own, insert-Disjoint s l w dl, dr)
        | inr (inl e) ↦ rw (insert, e) (own, dl, dr)
        | inr (inr e) ↦ rw (insert, e) (own, dl, insert-Disjoint s r w dr)
      ]

  insert-Separate : (t : Tree) → Away n t → Separate t → Separate (insert compar key n t)
  unfolding insert
  insert-Separate leaf w s = (tt, tt, tt, tt, tt, tt)
  insert-Separate (fork a k l r) (own, wl, wr) (al, ar, lr, rl, sl, sr) =
      elim (Ordering-cases (call_compar compar key k)) [
        | inl e ↦
            rw (insert, e)
              (
                Away-insert a l (omega arith) al,
                ar,
                insert-Disjoint r l wr lr,
                Disjoint-insert r l wr rl,
                insert-Separate l wl sl,
                sr,
              )
        | inr (inl e) ↦ rw (insert, e) (al, ar, lr, rl, sl, sr)
        | inr (inr e) ↦
            rw (insert, e)
              (
                al,
                Away-insert a r (omega arith) ar,
                Disjoint-insert l r wl lr,
                insert-Disjoint l r wl rl,
                sl,
                insert-Separate r wr sr,
              )
      ]

module _ {G : Type 0} (q : Qemu G) where
  -- A tree in memory whose root's address stands at `rootp`.
  pub record Rooted (m : MemoryManager G) (rootp p : ℕ) (t : Tree) : Type 0 where
    pub there : 0 < rootp
    pub fits : rootp + 8 < u64_mod
    pub root : load q m rootp ≡ some p
    pub holds : Holds q m p t
    pub separate : Separate t
    pub outside : WordAway rootp t
    pub able : Writable q m rootp × TreeWritable q m t

  -- The block that the heap gives next is free of the tree and its root.
  pub record Fresh (m : MemoryManager G) (rootp : ℕ) (t : Tree) : Type 0 where
    pub room : Room q m (given q m)
    pub apart : Away (given q m) t
    pub root_apart : Apart rootp 8 (given q m) 24

module _ {G : Type 0} (q : Qemu G) (laws : Debug q) (compar : ℕ → ℕ → ℕ) where
  -- tsearch refines insertion into a search tree, for a comparison function that depends on the two
  -- keys only and changes no memory. While QEMU has a processor and its debug access keeps the bytes
  -- that it writes, let a key below 2^64 be given, and in memory a tree with separate nodes, rooted at
  -- an address that is not 0 and outside of it, and a block from the heap for a node, apart from the
  -- tree and its root, all within the address space and the words for the new node and for the
  -- links writable. Then a run of as many rounds as the tree has levels returns the node of the key,
  -- the old one that the comparison function leads to or else the new one; memory holds the tree with
  -- the key inserted, again rooted at `rootp` with no two nodes that overlap.
  pub tsearch-insert :
      (m : MemoryManager G) (key rootp p : ℕ) (t : Tree)
      → Sound q m
      → key < u64_mod
      → Rooted q m rootp p t
      → Fresh q m rootp t
      → (m' : MemoryManager G) × (p' : ℕ) × (tsearch q compar (depth t) m key rootp
          ≡ placed m' (landed compar key (given q m) t))
        × Sound q m'
        × (load q m' rootp ≡ some p')
        × Holds q m' p' (insert compar key (given q m) t)
        × Separate (insert compar key (given q m) t)
  unfolding tsearch
  tsearch-insert m key rootp p t sound word rooted fresh =
      let (m', p', is, sound', root', holds', _) =
        descend q compar laws m key sound fresh.room word (depth t) rootp p t rooted.fits
          rooted.root rooted.able.0 fresh.root_apart rooted.outside rooted.holds
          (λ more.
            tsearch_loop-Inserted q compar laws m key sound fresh.room word (depth t) p t more
              (omega arith) fresh.apart rooted.separate rooted.able.1 rooted.holds) in
      let not_null : (rootp == 0) ≡ false = ground (arith, rooted.there) in
      (
        m',
        p',
        rw (tsearch, not_null, rooted.root) is,
        sound',
        root',
        holds',
        insert-Separate compar key (given q m) t fresh.apart rooted.separate,
      )

  -- tfind finds what tsearch has inserted, for a comparison function that depends on the two keys
  -- only, changes no memory and finds the key equal to itself. While QEMU has a processor and its
  -- debug access keeps the bytes that it writes, let a key below 2^64 be given, and in memory a tree
  -- with separate nodes, rooted at an address that is not 0 and outside of it, and a block from the
  -- heap for a node, apart from the tree and its root, all within the address space and the words
  -- for the new node and for the links writable. Then after a tsearch that returned a node, on a
  -- round for each level of the tree, tfind returns this node, on one for each level of the new tree.
  pub tfind-tsearch :
      (m m' : MemoryManager G) (key rootp p x : ℕ) (t : Tree)
      → Sound q m
      → key < u64_mod
      → compar key key % 2 ^ 32 ≡ 0
      → Rooted q m rootp p t
      → Fresh q m rootp t
      → tsearch q compar (depth t) m key rootp ≡ placed m' x
      → tfind q compar (depth (insert compar key (given q m) t)) m' key rootp ≡ found x
  unfolding call_compar
  tfind-tsearch m m' key rootp p x t sound word self rooted fresh e =
      let (m1, p', is, sound', root', holds', s) =
        tsearch-insert m key rootp p t sound word rooted fresh in
      let same_memory : m1 ≡ m' = cc in
      let same_node : landed compar key (given q m) t ≡ x = cc in
      let equal : call_compar compar key key ≡ eq = ground arith in
      ap
        (λ (i : MemoryManager G).
          tfind q compar (depth (insert compar key (given q m) t)) i key rootp)
        (sym same_memory)
      ∙ tfind-lookup q compar m1 key rootp p' (insert compar key (given q m) t) rooted.there root'
          holds'
      ∙ ap found (lookup-insert compar key (given q m) t equal ∙ same_node)
