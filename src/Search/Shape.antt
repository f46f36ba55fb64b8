-- ===== src/Search/Shape.antt =====
-- The tree that stands in memory at an address, and what keeps it there.
use Prim.Native.Nat.{Ordering, lt, eq, gt}
use cross_shim.Base.{ℕ, suc, max, ◌+◌, ◌≤◌, ◌<◌, ◌≡◌, refl, ◌∙◌, some, arith, ◌⊎◌, inl, inr}
use cross_shim.Base.Word.{u64_mod}
use cross_shim.Memory.{MemoryManager}
use cross_shim.Memory.Host.{Qemu}
use cross_shim.Memory.ReadWrite.{Apart}
use cross_shim.Search.{call_compar, load}

-- A node has an address and a key.
pub data Tree : Type 0 where
  leaf : Tree
  fork : ℕ → ℕ → Tree → Tree → Tree

unfoldable pub depth : Tree → ℕ
depth leaf = 0
depth (fork a k l r) = suc (max (depth l) (depth r))

pub Ordering-cases : (o : Ordering) → (o ≡ lt) ⊎ (o ≡ eq) ⊎ (o ≡ gt)
Ordering-cases lt = inl refl
Ordering-cases eq = inr (inl refl)
Ordering-cases gt = inr (inr refl)

-- The address of the node that a comparison function leads to, and 0 if there is none.
unfoldable pub lookup : (ℕ → ℕ → ℕ) → ℕ → Tree → ℕ
lookup compar key leaf = 0
lookup compar key (fork a k l r) = elim (call_compar compar key k) [
  | eq ↦ a
  | lt ↦ lookup compar key l
  | gt ↦ lookup compar key r
]

-- The tree with a node `n` for the key, if the comparison function leads to none.
unfoldable pub insert : (ℕ → ℕ → ℕ) → ℕ → ℕ → Tree → Tree
insert compar key n leaf = fork n key leaf leaf
insert compar key n (fork a k l r) = elim (call_compar compar key k) [
  | eq ↦ fork a k l r
  | lt ↦ fork a k (insert compar key n l) r
  | gt ↦ fork a k l (insert compar key n r)
]

-- The nodes keep away from the 24 bytes at an address, or from a word.
abbrev pub Away : ℕ → Tree → Type 0
Away b leaf = Unit {0}
Away b (fork a k l r) = Apart b 24 a 24 × Away b l × Away b r

abbrev pub WordAway : ℕ → Tree → Type 0
WordAway b leaf = Unit {0}
WordAway b (fork a k l r) = Apart b 8 a 24 × WordAway b l × WordAway b r

abbrev pub Disjoint : Tree → Tree → Type 0
Disjoint leaf t = Unit {0}
Disjoint (fork a k l r) t = Away a t × Disjoint l t × Disjoint r t

-- No two nodes overlap.
abbrev pub Separate : Tree → Type 0
Separate leaf = Unit {0}
Separate (fork a k l r) =
    Away a l × Away a r × Disjoint l r × Disjoint r l × Separate l × Separate r

pub Away-WordAway : (b c : ℕ) (t : Tree) → b ≤ c → c + 8 ≤ b + 24 → Away b t → WordAway c t
Away-WordAway b c leaf lo hi w = tt
Away-WordAway b c (fork a k l r) lo hi (d, w, w') =
    (omega arith, Away-WordAway b c l lo hi w, Away-WordAway b c r lo hi w')

module _ {G : Type 0} (q : Qemu G) where
  -- The tree at an address, 0 for the empty one.
  abbrev pub Holds : MemoryManager G → ℕ → Tree → Type 0
  Holds m p leaf = p ≡ 0
  Holds m p (fork a k l r) =
      (p ≡ a)
      × (0 < a)
      × (a + 24 < u64_mod)
      × (load q m a ≡ some k)
      × ((pl : ℕ) × (load q m (a + 8) ≡ some pl) × Holds m pl l)
      × ((pr : ℕ) × (load q m (a + 16) ≡ some pr) × Holds m pr r)

  -- What changes is only the nodes of a tree and the block at `n`.
  abbrev pub Outside : MemoryManager G → MemoryManager G → ℕ → Tree → Type 0
  Outside m m' n t =
      (b : ℕ) → b + 8 < u64_mod → Apart b 8 n 24 → WordAway b t → load q m' b ≡ load q m b

  pub Outside-Holds :
      (m m' : MemoryManager G) (n p : ℕ) (s t : Tree)
      → Outside m m' n t
      → Away n s
      → Disjoint s t
      → Holds m p s
      → Holds m' p s
  Outside-Holds m m' n p leaf t o w d h = h
  Outside-Holds m m' n p (fork a k l r) t o (w, wl, wr) (d, dl, dr)
        (is, pos, fits, key, (pl, left, hl), (pr, right, hr)) =
      let keep = λ (c : ℕ) (lo : a ≤ c) (hi : c + 8 ≤ a + 24).
        o c (omega arith) (omega arith) (Away-WordAway a c t lo hi d) in
      (
        is,
        pos,
        fits,
        keep a (omega arith) (omega arith) ∙ key,
        (
          pl,
          keep (a + 8) (omega arith) (omega arith) ∙ left,
          Outside-Holds m m' n pl l t o wl dl hl,
        ),
        (
          pr,
          keep (a + 16) (omega arith) (omega arith) ∙ right,
          Outside-Holds m m' n pr r t o wr dr hr,
        ),
      )
