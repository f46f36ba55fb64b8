-- ===== src/Container/Total.antt =====
-- The sum of the values of a dictionary, and its keys in strictly ascending order.
use cross_shim.Base.{ℕ, ◌+◌, ◌≤◌, ◌<◌, ◌≡◌, refl, Option, none, some, List, [], ◌∷◌, arith}
use cross_shim.Container.Dict.{lookup, insert, erase}

unfoldable pub total : List (ℕ × ℕ) → ℕ
total [] = 0
total ((k, v) ∷ m) = v + total m

abbrev pub value_or_zero : Option ℕ → ℕ
value_or_zero none = 0
value_or_zero (some v) = v

-- Every key is at least `n`, and greater than the one before.
abbrev pub Ascending : ℕ → List (ℕ × ℕ) → Type 0
Ascending n [] = Unit {0}
Ascending n ((k, v) ∷ m) = (n ≤ k) × Ascending (k + 1) m

lookup_below : (n k : ℕ) (m : List (ℕ × ℕ)) → Ascending n m → k < n → lookup k m ≡ none
unfolding lookup
lookup_below n k [] a h = refl
lookup_below n k ((j, w) ∷ m) a h = ground (arith, lookup_below (j + 1) k m a.1)

pub insert-Ascending :
    (n k v : ℕ) (m : List (ℕ × ℕ)) → Ascending n m → n ≤ k → Ascending n (insert k v m)
unfolding insert
insert-Ascending n k v [] a h = (h, tt)
insert-Ascending n k v ((j, w) ∷ m) a h = ground (arith, insert-Ascending (j + 1) k v m a.1)

Ascending-mono : (a b : ℕ) (m : List (ℕ × ℕ)) → a ≤ b → Ascending b m → Ascending a m
Ascending-mono a b [] h s = tt
Ascending-mono a b ((k, v) ∷ m) h s = (omega arith, s.1)

pub erase-Ascending : (n k : ℕ) (m : List (ℕ × ℕ)) → Ascending n m → Ascending n (erase k m)
unfolding erase
erase-Ascending n k [] a = tt
erase-Ascending n k ((j, w) ∷ m) a =
    ground (arith, erase-Ascending (j + 1) k m a.1, Ascending-mono n (j + 1) (erase k m))

pub total-insert :
    (n k v : ℕ) (m : List (ℕ × ℕ))
    → Ascending n m
    → total (insert k v m) + value_or_zero (lookup k m) ≡ total m + v
unfolding total insert lookup
total-insert n k v [] a = omega arith
total-insert n k v ((j, w) ∷ m) a =
    ground (arith, total-insert (j + 1) k v m a.1, lookup_below (j + 1) k m a.1)

erase_absent : (k : ℕ) (m : List (ℕ × ℕ)) → lookup k m ≡ none → total (erase k m) ≡ total m
unfolding total erase lookup
erase_absent k [] e = refl
erase_absent k ((j, w) ∷ m) e = ground (arith, erase_absent k m)

pub total-erase :
    (n k : ℕ) (m : List (ℕ × ℕ))
    → Ascending n m
    → total (erase k m) + value_or_zero (lookup k m) ≡ total m
unfolding total erase lookup
total-erase n k [] a = omega arith
total-erase n k ((j, w) ∷ m) a =
    ground (arith, total-erase (j + 1) k m a.1, lookup_below (j + 1) k m a.1, erase_absent k m)
