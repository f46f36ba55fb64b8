-- ===== src/Heap/Fit.antt =====
-- The search of HeapAllocator::allocate for a free block, and what giving back a part of one keeps.
use cross_shim.Base.{
  ℕ, ◌+◌, ◌≤◌, ◌<◌, ◌≡◌, refl, sym, ap, ◌∙◌, inl, inr, Option, none, some, [], ◌∷◌, Bool-cases,
  arith, leb,
}
use cross_shim.Base.Word.{add64, sub64, align_up}
use cross_shim.Container.Dict.{lookup}
use cross_shim.Container.MultiMap
use cross_shim.Container.MultiMap.{Pairs, SortedFrom}
use cross_shim.Heap.{HeapAllocator, find_fit, give_back}
use cross_shim.Heap.Invariant.{IsValid, Unowned, Disjoint, held}
use cross_shim.Heap.Join.{Frame}
use cross_shim.Heap.Merge.{add_free_block-IsValid}

-- The block that the loop stops at is in the index, and has room behind the padding.
pub find_fit-some :
    (n al s a : ℕ) (m : Pairs)
    → find_fit n al m ≡ some (s, a)
    → (0 < MultiMap.count s a m) × (add64 n (sub64 (align_up a al) a) ≤ s)
unfolding find_fit MultiMap.count
find_fit-some n al s a [] e = ground arith
find_fit-some n al s a ((t, b) ∷ m) e = ground (arith, find_fit-some n al s a m)

-- Pairs behind `lower_bound(n)` have a key of at least `n`.
pub key_ge : (n s a : ℕ) (m : Pairs) → SortedFrom n m → 0 < MultiMap.count s a m → n ≤ s
unfolding MultiMap.count
key_ge n s a [] o h = absurd (omega arith)
key_ge n s a ((t, b) ∷ m) o h =
    ground (arith, key_ge n s a m (MultiMap.SortedFrom-mono {a = n} {b = t} m o.0 o.1))

pub find_fit-none :
    (n al s a : ℕ) (m : Pairs)
    → find_fit n al m ≡ none
    → 0 < MultiMap.count s a m
    → s < add64 n (sub64 (align_up a al) a)
unfolding find_fit MultiMap.count
find_fit-none n al s a [] e h = absurd (omega arith)
find_fit-none n al s a ((t, b) ∷ m) e h = ground (arith, find_fit-none n al s a m)

pub flip-Disjoint : (a s b t : ℕ) → Disjoint a s b t → Disjoint b t a s
flip-Disjoint a s b t d = ground arith

pub held-pos : (s : ℕ) (o : Option ℕ) → 0 < held s o → o ≡ some s
held-pos s none h = absurd (omega arith)
held-pos s (some t) h = ground arith

pub held_self : (s : ℕ) (o : Option ℕ) → o ≡ some s → held s o ≡ 1
held_self s none h = ground arith
held_self s (some t) h = ground arith

module _ {h : HeapAllocator} where
  pub sub-Unowned : (a s c w : ℕ) → Unowned h a s → 0 < w → a ≤ c → c + w ≤ a + s → Unowned h c w
  sub-Unowned a s c w u pos le end = record {
    within = (pos, omega (arith, u.within), omega (arith, u.within));
    not_free = λ b t f. ground (arith, u.not_free b t f);
    not_live = λ b t f. ground (arith, u.not_live b t f);
  }

  pub Frame-Unowned :
      (a s c w : ℕ) {g : HeapAllocator}
      → Frame h a s g
      → Disjoint a s c w
      → Unowned h c w
      → Unowned g c w
  Frame-Unowned a s c w f d u = record {
    within =
        (u.within.0, omega (arith, f.same_base, u.within), omega (arith, f.same_mark, u.within));
    not_free = λ b t e.
        flip-Disjoint b t c w
          (f.clear c w u.within.0 d (λ i z x. flip-Disjoint c w i z (u.not_free i z x)) b t e);
    not_live = λ b t e. u.not_live b t (sym (ap (lookup b) f.same_live) ∙ e);
  }

  pub give_back-Kept :
      (least a s : ℕ)
      → IsValid h
      → 0 < least
      → (0 < s → Unowned h a s)
      → IsValid (give_back h least a s) × Frame h a s (give_back h least a s)
  unfolding give_back
  give_back-Kept least a s v pos u = elim (Bool-cases (leb least s)) [
    | inl yes' ↦ rw yes' (let k = add_free_block-IsValid v a s (u (ground arith)) in (k.0, k.1))
    | inr no' ↦ rw no' (
      v,
      record {
        same_base = refl;
        same_size = refl;
        same_mark = refl;
        same_live = refl;
        clear = λ c w q d k. k;
      },
    )
  ]
