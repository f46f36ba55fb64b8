-- ===== src/Container/MultiMap.antt =====
-- std::multimap<uint64_t, uint64_t>: pairs in ascending order of keys, equal keys as inserted.
use cross_shim.Base.{
  ℕ, ◌+◌, ◌-◌, ◌≤◌, ◌≡◌, refl, ◌&&◌, List, [], ◌∷◌, arith, ltb, ◌==◌, if◌then◌else◌,
}

abbrev pub Pairs : Type 0
Pairs = List (ℕ × ℕ)

-- `insert` puts a pair behind those with an equal key.
unfoldable pub insert : ℕ → ℕ → Pairs → Pairs
insert k v [] = (k, v) ∷ []
insert k v ((j, w) ∷ m) = if ltb k j then (k, v) ∷ (j, w) ∷ m else (j, w) ∷ insert k v m

-- The loop over `equal_range(k)` that erases the first pair with the value `v`.
unfoldable pub erase : ℕ → ℕ → Pairs → Pairs
erase k v [] = []
erase k v ((j, w) ∷ m) = if (j == k) && (w == v) then m else (j, w) ∷ erase k v m

-- The pairs from `lower_bound(k)` on.
unfoldable pub lower_bound : ℕ → Pairs → Pairs
lower_bound k [] = []
lower_bound k ((j, w) ∷ m) = if ltb j k then lower_bound k m else (j, w) ∷ m

-- How often a pair stands in the map.
unfoldable pub count : ℕ → ℕ → Pairs → ℕ
count k v [] = 0
count k v ((j, w) ∷ m) = (if (j == k) && (w == v) then 1 else 0) + count k v m

pub count-insert :
    (k v j w : ℕ) (m : Pairs)
    → count j w (insert k v m) ≡ (if (k == j) && (v == w) then 1 else 0) + count j w m
unfolding count insert
count-insert k v j w [] = refl
count-insert k v j w ((i, u) ∷ m) = ground (arith, count-insert k v j w m)

pub count-erase :
    (k v j w : ℕ) (m : Pairs)
    → count j w (erase k v m) ≡ count j w m - (if (k == j) && (v == w) then 1 else 0)
unfolding count erase
count-erase k v j w [] = ground arith
count-erase k v j w ((i, u) ∷ m) = ground (arith, count-erase k v j w m)

-- Ascending keys, none below `n`.
abbrev pub SortedFrom : ℕ → Pairs → Type 0
SortedFrom n [] = Unit {0}
SortedFrom n ((k, v) ∷ m) = (n ≤ k) × SortedFrom k m

pub SortedFrom-mono : {a b : ℕ} (m : Pairs) → a ≤ b → SortedFrom b m → SortedFrom a m
SortedFrom-mono [] h s = tt
SortedFrom-mono ((k, v) ∷ m) h s = (omega arith, s.1)

pub insert-SortedFrom :
    (n k v : ℕ) (m : Pairs) → n ≤ k → SortedFrom n m → SortedFrom n (insert k v m)
unfolding insert
insert-SortedFrom n k v [] h s = (h, tt)
insert-SortedFrom n k v ((j, w) ∷ m) h s = ground (arith, insert-SortedFrom j k v m)

pub erase-SortedFrom : (n k v : ℕ) (m : Pairs) → SortedFrom n m → SortedFrom n (erase k v m)
unfolding erase
erase-SortedFrom n k v [] s = tt
erase-SortedFrom n k v ((j, w) ∷ m) s =
    ground (arith, erase-SortedFrom j k v m s.1, SortedFrom-mono {a = n} {b = j} m)

-- `lower_bound` loses no pair whose key is large enough, and keeps the order.
pub count-lower_bound :
    (k j w : ℕ) (m : Pairs) → SortedFrom 0 m → k ≤ j → count j w (lower_bound k m) ≡ count j w m
unfolding count lower_bound
count-lower_bound k j w [] s h = refl
count-lower_bound k j w ((i, u) ∷ m) s h =
    ground (arith, count-lower_bound k j w m (SortedFrom-mono {a = 0} {b = i} m (omega arith) s.1))

pub lower_bound-SortedFrom : (n k : ℕ) (m : Pairs) → SortedFrom n m → SortedFrom k (lower_bound k m)
unfolding lower_bound
lower_bound-SortedFrom n k [] s = tt
lower_bound-SortedFrom n k ((j, w) ∷ m) s = ground (arith, lower_bound-SortedFrom j k m s.1)
