-- ===== src/Scan/Suffix.antt =====
-- Each step of the parser of formats leaves an end of what it was given.
use cross_shim.Base.{
  ℕ, ◌+◌, ◌-◌, ◌*◌, ◌^◌, ◌≤◌, ◌≡◌, refl, ap, sym, ◌∙◌, Bool, true, false, Option, none, some, List,
  [], ◌∷◌, ◌++◌, ◌⊎◌, inl, inr, length, take, length-append, ltb, ◌==◌, if◌then◌else◌, arith,
  Bool-cases, Option-cases,
}
use mathlib.Core.List.{append_assoc}
use cross_shim.Scan.Format.{
  ScanLengthMod, h, hh, l, ll, is_digit, read_flag, read_width, maybe_width, read_bits, bits_of,
  between_places, read_w, read_twice, read_length, read_to_bracket, read_set, read_conv,
}

-- `to` is an end of `from`.
abbrev pub Suffix : List ℕ → List ℕ → Type 0
Suffix from to = (before : List ℕ) × (from ≡ before ++ to)

pub Suffix-all : (xs : List ℕ) → Suffix xs xs
Suffix-all xs = ([], refl)

pub Suffix-cons : (c : ℕ) (xs ys : List ℕ) → Suffix xs ys → Suffix (c ∷ xs) ys
Suffix-cons c xs ys (before, e) = (c ∷ before, ap (◌∷◌ c) e)

pub Suffix-trans : (xs ys zs : List ℕ) → Suffix xs ys → Suffix ys zs → Suffix xs zs
Suffix-trans xs ys zs (a, e) (b, f) = (a ++ b, e ∙ ap (◌++◌ a) f ∙ sym (append_assoc a b zs))

pub Suffix-length : (xs ys : List ℕ) → Suffix xs ys → length ys ≤ length xs
Suffix-length xs ys (before, e) = omega (arith, ap length e, length-append before ys)

take-front : (before to : List ℕ) → take (length before) (before ++ to) ≡ before
take-front [] to = refl
take-front (c ∷ before) to = ap (◌∷◌ c) (take-front before to)

-- What stands between two places.
pub between_places-append :
    (from to : List ℕ) → Suffix from to → between_places from to ++ to ≡ from
unfolding between_places
between_places-append from to (before, e) =
    let n : length from - length to ≡ length before =
      omega (arith, ap length e, length-append before to) in
    ap (λ (i : ℕ). take i from ++ to) n
    ∙ ap (λ xs. take (length before) xs ++ to) e
    ∙ ap (λ xs. xs ++ to) (take-front before to)
    ∙ sym e

pub read_flag-Suffix : (flag : ℕ) (xs : List ℕ) → Suffix xs (read_flag flag xs).1
unfolding read_flag
read_flag-Suffix flag [] = Suffix-all []
read_flag-Suffix flag (c ∷ xs) = elim (Bool-cases (c == flag)) [
  | inl e ↦ rw (read_flag, e) (c ∷ [], refl)
  | inr e ↦ rw (read_flag, e) ([], refl)
]

-- A step that may fail.
abbrev pub Left {ℓ} : {A : Type ℓ} → List ℕ → Option (A × List ℕ) → Type 0
Left xs none = Unit {0}
Left xs (some (a, ys)) = Suffix xs ys

Left-cons {ℓ} :
    {A : Type ℓ} (c : ℕ) (xs : List ℕ) (o : Option (A × List ℕ)) → Left xs o → Left (c ∷ xs) o
Left-cons c xs none s = tt
Left-cons c xs (some (a, ys)) s = Suffix-cons c xs ys s

read_width-Left : (width : ℕ) (xs : List ℕ) → Left xs (read_width width xs)
unfolding read_width
read_width-Left width [] = Suffix-all []
read_width-Left width (c ∷ xs) =
    let next = width * 10 + (c - b'0') in
    let more = Left-cons c xs (read_width next xs) (read_width-Left next xs) in
    elim (Bool-cases (is_digit c)) [
      | inl e ↦ elim (Bool-cases (ltb (2 ^ 31 - 1) next)) [
        | inl big ↦ rw (read_width, e, big) tt
        | inr small ↦ rw (read_width, e, small) more
      ]
      | inr e ↦ rw (read_width, e) (Suffix-all (c ∷ xs))
    ]

chosen_width :
    (xs : List ℕ) (o : Option (ℕ × List ℕ))
    → Left xs o
    → Left xs (elim o as (λ _. Option (Option ℕ × List ℕ)) [
      | none ↦ none
      | some read ↦ some (some read.0, read.1)
    ])
chosen_width xs none s = tt
chosen_width xs (some (w, ys)) s = s

pub maybe_width-Left : (xs : List ℕ) → Left xs (maybe_width xs)
unfolding maybe_width
maybe_width-Left [] = Suffix-all []
maybe_width-Left (c ∷ xs) = elim (Bool-cases (is_digit c)) [
  | inl e ↦ rw (maybe_width, e) (chosen_width (c ∷ xs) _ (read_width-Left 0 (c ∷ xs)))
  | inr e ↦ rw (maybe_width, e) (Suffix-all (c ∷ xs))
]

read_bits-Suffix : (xs : List ℕ) → Suffix xs (read_bits xs).1
unfolding read_bits
read_bits-Suffix [] = Suffix-all []
read_bits-Suffix (c ∷ xs) = elim (Bool-cases (is_digit c)) [
  | inl e ↦ rw (read_bits, e) (Suffix-cons c xs (read_bits xs).1 (read_bits-Suffix xs))
  | inr e ↦ rw (read_bits, e) (Suffix-all (c ∷ xs))
]

abbrev pub Modified : List ℕ → List ℕ ⊎ (ScanLengthMod × ℕ × List ℕ) → Type 0
Modified xs (inl message) = Unit {0}
Modified xs (inr (m, bits, ys)) = Suffix xs ys

Modified-cons :
    (c : ℕ) (xs : List ℕ) (o : List ℕ ⊎ (ScanLengthMod × ℕ × List ℕ))
    → Modified xs o
    → Modified (c ∷ xs) o
Modified-cons c xs (inl message) s = tt
Modified-cons c xs (inr (m, bits, ys)) s = Suffix-cons c xs ys s

read_w-Modified : (xs : List ℕ) → Modified xs (read_w xs)
unfolding read_w
read_w-Modified xs =
    let rest = (read_flag b'f' xs).1 in
    elim (Option-cases (bits_of (read_bits rest).0)) [
      | inl e ↦ rw (read_w, e) tt
      | inr (bits, e) ↦
          rw (read_w, e)
            (Suffix-trans xs rest (read_bits rest).1 (read_flag-Suffix b'f' xs)
              (read_bits-Suffix rest))
    ]

read_twice-Modified :
    (c : ℕ) (single double : ScanLengthMod) (xs : List ℕ)
    → Modified xs (read_twice c single double xs)
unfolding read_twice
read_twice-Modified c single double xs = read_flag-Suffix c xs

Modified-if :
    (xs : List ℕ) (b : Bool) (x y : List ℕ ⊎ (ScanLengthMod × ℕ × List ℕ))
    → Modified xs x
    → Modified xs y
    → Modified xs (if b then x else y)
Modified-if xs true x y mx my = mx
Modified-if xs false x y mx my = my

pub read_length-Modified : (xs : List ℕ) → Modified xs (read_length xs)
unfolding read_length
read_length-Modified [] = Suffix-all []
read_length-Modified (c ∷ xs) =
    let branch = Modified-if (c ∷ xs) in
    let twice = λ (d : ℕ) (m n : ScanLengthMod).
      Modified-cons c xs (read_twice d m n xs) (read_twice-Modified d m n xs) in
    branch (c == b'w') _ _ (Modified-cons c xs (read_w xs) (read_w-Modified xs)) (
      branch (c == b'h') _ _ (twice b'h' h hh) (
        branch (c == b'l') _ _ (twice b'l' l ll) (
          branch (c == b'L') _ _ (c ∷ [], refl)
            (branch (c == b'j') _ _ (c ∷ [], refl)
              (branch (c == b'z') _ _ (c ∷ [], refl)
                (branch (c == b't') _ _ (c ∷ [], refl) (Suffix-all (c ∷ xs))))))))

-- A step that fails or leaves an end.
abbrev pub Leaves : List ℕ → Option (List ℕ) → Type 0
Leaves xs none = Unit {0}
Leaves xs (some ys) = Suffix xs ys

Leaves-if :
    (xs : List ℕ) (b : Bool) (x y : Option (List ℕ))
    → Leaves xs x
    → Leaves xs y
    → Leaves xs (if b then x else y)
Leaves-if xs true x y mx my = mx
Leaves-if xs false x y mx my = my

Leaves-after : (xs ys : List ℕ) (o : Option (List ℕ)) → Suffix xs ys → Leaves ys o → Leaves xs o
Leaves-after xs ys none s left = tt
Leaves-after xs ys (some zs) s left = Suffix-trans xs ys zs s left

read_to_bracket-Leaves : (xs : List ℕ) → Leaves xs (read_to_bracket xs)
unfolding read_to_bracket
read_to_bracket-Leaves [] = tt
read_to_bracket-Leaves (c ∷ xs) =
    Leaves-if (c ∷ xs) (c == b']') _ _ (c ∷ [], refl)
      (Leaves-after (c ∷ xs) xs _ (c ∷ [], refl) (read_to_bracket-Leaves xs))

read_set-Leaves : (xs : List ℕ) → Leaves xs (read_set xs)
unfolding read_set
read_set-Leaves xs =
    let bracket = (read_flag b']' xs).1 in
    let caret = (read_flag b'^' xs).1 in
    let both = (read_flag b']' caret).1 in
    let past_both =
      Suffix-trans xs caret both (read_flag-Suffix b'^' xs) (read_flag-Suffix b']' caret) in
    Leaves-if xs (read_flag b']' xs).0 _ _
      (Leaves-after xs bracket _ (read_flag-Suffix b']' xs) (read_to_bracket-Leaves bracket))
      (Leaves-if xs (read_flag b'^' xs).0 _ _
        (Leaves-after xs both _ past_both (read_to_bracket-Leaves both))
        (read_to_bracket-Leaves xs))

pub read_conv-Leaves : (conv : ℕ) (xs : List ℕ) → Leaves xs (read_conv conv xs)
unfolding read_conv
read_conv-Leaves conv xs = Leaves-if xs (conv == b'[') _ _ (read_set-Leaves xs) (Suffix-all xs)
