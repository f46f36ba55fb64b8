-- ===== src/Container/Dict.antt =====
-- std::map<uint64_t, V> and std::unordered_map<uint64_t, V>: entries in ascending order of keys.
use cross_shim.Base.{
  ℕ, ◌≤◌, ◌<◌, ◌≡◌, refl, Option, none, some, List, [], ◌∷◌, arith, ltb, ◌==◌, if◌then◌else◌,
}

module _ {ℓ} {V : Type ℓ} where
  -- `find`
  unfoldable pub lookup : ℕ → List (ℕ × V) → Option V
  lookup key [] = none
  lookup key ((at, value) ∷ others) = if at == key then some value else lookup key others

  -- `m[k] = v`
  unfoldable pub insert : ℕ → V → List (ℕ × V) → List (ℕ × V)
  insert k v [] = (k, v) ∷ []
  insert k v ((j, w) ∷ m) =
      if ltb k j
      then (k, v) ∷ (j, w) ∷ m
      else (if j == k then (k, v) ∷ m else (j, w) ∷ insert k v m)

  unfoldable pub erase : ℕ → List (ℕ × V) → List (ℕ × V)
  erase k [] = []
  erase k ((j, w) ∷ m) = let rest = erase k m in if j == k then rest else (j, w) ∷ rest

  closer : Option (ℕ × V) → ℕ × V → ℕ × V
  closer none e = e
  closer (some (j, w)) (k, v) = if ltb k j then (j, w) else (k, v)

  -- `std::prev(m.lower_bound(a))`: the entry with the greatest key below `a`.
  unfoldable pub prev_of : ℕ → List (ℕ × V) → Option (ℕ × V)
  unfolding closer
  prev_of a [] = none
  prev_of a ((k, v) ∷ m) =
      let rest = prev_of a m in if ltb k a then some (closer rest (k, v)) else rest

  nearer : Option (ℕ × V) → ℕ × V → ℕ × V
  nearer none e = e
  nearer (some (j, w)) (k, v) = if ltb j k then (j, w) else (k, v)

  -- `m.lower_bound(a)`: the entry with the least key that is not below `a`.
  unfoldable pub next_of : ℕ → List (ℕ × V) → Option (ℕ × V)
  unfolding nearer
  next_of a [] = none
  next_of a ((k, v) ∷ m) =
      let rest = next_of a m in if ltb k a then rest else some (nearer rest (k, v))

  -- What a key maps to after `m[key] = value`.
  pub lookup-insert :
      (key asked : ℕ) (value : V) (entries : List (ℕ × V))
      → lookup asked (insert key value entries)
        ≡ (if key == asked then some value else lookup asked entries)
  unfolding lookup insert
  lookup-insert key asked value [] = refl
  lookup-insert key asked value (first ∷ entries) =
      ground (arith, lookup-insert key asked value entries)

  pub lookup-insert_same :
      (key : ℕ) (value : V) (entries : List (ℕ × V))
      → lookup key (insert key value entries) ≡ some value
  lookup-insert_same key value entries = ground (arith, lookup-insert key key value entries)

  pub lookup-erase :
      (k j : ℕ) (m : List (ℕ × V)) → lookup j (erase k m) ≡ (if k == j then none else lookup j m)
  unfolding lookup erase
  lookup-erase k j [] = ground arith
  lookup-erase k j ((i, w) ∷ m) = ground (arith, lookup-erase k j m)

  -- `prev_of` fails only if every key is at least `a`.
  pub prev_of-none :
      (a j : ℕ) (w : V) (m : List (ℕ × V)) → prev_of a m ≡ none → lookup j m ≡ some w → a ≤ j
  unfolding prev_of lookup
  prev_of-none a j w [] h e = ground arith
  prev_of-none a j w ((i, u) ∷ m) h e = ground (arith, prev_of-none a j w m)

  -- What it returns is an entry below `a`, and no key lies between.
  pub prev_of-some :
      (a k : ℕ) (v : V) (m : List (ℕ × V))
      → prev_of a m ≡ some (k, v)
      → (lookup k m ≡ some v) × (k < a)
  unfolding prev_of lookup
  prev_of-some a k v [] h = ground arith
  prev_of-some a k v ((j, w) ∷ m) h = ground (arith, prev_of-some a k v m)

  pub prev_of-greatest :
      (a k j : ℕ) (v w : V) (m : List (ℕ × V))
      → prev_of a m ≡ some (k, v)
      → lookup j m ≡ some w
      → j < a
      → j ≤ k
  unfolding prev_of lookup
  prev_of-greatest a k j v w [] h e lt = ground arith
  prev_of-greatest a k j v w ((i, u) ∷ m) h e lt =
      go (prev_of a m) (λ x y q e'. prev_of-greatest a x j y w m q e' lt) (prev_of-none a j w m) h
    where
      go :
          (r : Option (ℕ × V))
          → ((x : ℕ) (y : V) → r ≡ some (x, y) → lookup j m ≡ some w → j ≤ x)
          → (r ≡ none → lookup j m ≡ some w → a ≤ j)
          → (if ltb i a then some (closer r (i, u)) else r) ≡ some (k, v)
          → j ≤ k
      go none ih out q = ground arith
      go (some (x, y)) ih out q = ground (arith, ih x y refl)

  -- The same for `next_of`.
  pub next_of-none :
      (a j : ℕ) (w : V) (m : List (ℕ × V)) → next_of a m ≡ none → lookup j m ≡ some w → j < a
  unfolding next_of lookup
  next_of-none a j w [] h e = ground arith
  next_of-none a j w ((i, u) ∷ m) h e = ground (arith, next_of-none a j w m)

  pub next_of-some :
      (a k : ℕ) (v : V) (m : List (ℕ × V))
      → next_of a m ≡ some (k, v)
      → (lookup k m ≡ some v) × (a ≤ k)
  unfolding next_of lookup
  next_of-some a k v [] h = ground arith
  next_of-some a k v ((j, w) ∷ m) h = ground (arith, next_of-some a k v m)

  pub next_of-least :
      (a k j : ℕ) (v w : V) (m : List (ℕ × V))
      → next_of a m ≡ some (k, v)
      → lookup j m ≡ some w
      → a ≤ j
      → k ≤ j
  unfolding next_of lookup
  next_of-least a k j v w [] h e le = ground arith
  next_of-least a k j v w ((i, u) ∷ m) h e le =
      go (next_of a m) (λ x y q e'. next_of-least a x j y w m q e' le) (next_of-none a j w m) h
    where
      go :
          (r : Option (ℕ × V))
          → ((x : ℕ) (y : V) → r ≡ some (x, y) → lookup j m ≡ some w → x ≤ j)
          → (r ≡ none → lookup j m ≡ some w → j < a)
          → (if ltb i a then r else some (nearer r (i, u))) ≡ some (k, v)
          → k ≤ j
      go none ih out q = ground arith
      go (some (x, y)) ih out q = ground (arith, ih x y refl)
