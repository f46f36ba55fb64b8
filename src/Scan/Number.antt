-- ===== src/Scan/Number.antt =====
-- What scanf reads where a number is written: a sign, the mark of the base, digits, and a rest.
use cross_shim.Base.{
  ℕ, suc, ◌+◌, ◌-◌, ◌%◌, ◌^◌, ◌<◌, ◌≡◌, ◌≢◌, refl, ap, subst, ◌∙◌, ◌⊎◌, inl, inr, Bool, true, false,
  ◌&&◌, not, none, some, List, [], ◌∷◌, ◌++◌, length, drop, drop-length, take-all, ◌==◌,
  if◌then◌else◌, arith, Bool-cases,
}
use cross_shim.Scan.{
  is_sign, digit_value, digit_in, is_digit_in, conv_base, has_prefix, starts_with_zero, choose_base,
  read_digits, conclude, parse_base, parse_magnitude, parse_signed, parse_integer_value,
}
use cross_shim.Scan.Integer.{Digits, Stops, number, read_digits-number}

-- The sign in front of the digits: none, plus or minus.
pub data Sign : Type 0 where
  unsigned plus minus : Sign

abbrev pub written : Sign → List ℕ
written unsigned = []
written plus = b'+' ∷ []
written minus = b'-' ∷ []

abbrev pub signed : Sign → ℕ → ℕ
signed unsigned n = n % 2 ^ 64
signed plus n = n % 2 ^ 64
signed minus n = (2 ^ 64 - n % 2 ^ 64) % 2 ^ 64

abbrev pub is_minus : Sign → Bool
is_minus unsigned = false
is_minus plus = false
is_minus minus = true

digit_no_sign : (base c d : ℕ) → digit_in base c ≡ some d → is_sign c ≡ false
unfolding digit_in digit_value is_sign
digit_no_sign base c d e = ground arith

-- The end of the routine on digits behind a prefix.
parse_base-number :
    (negative : Bool) (base prefix cursor : ℕ) (text cs ds rest : List ℕ)
    → drop prefix text ≡ cs ++ rest
    → 0 < length cs
    → Digits base cs ds
    → Stops base rest
    → parse_base negative text cursor (base, prefix)
      ≡ some (
        cursor + prefix + length cs,
        (if negative then (2 ^ 64 - number base ds % 2 ^ 64) % 2 ^ 64 else number base ds % 2 ^ 64),
      )
unfolding parse_base conclude
parse_base-number negative base prefix cursor text cs ds rest left some_digits e stop =
    let start = cursor + prefix in
    let r = read_digits-number base cs ds rest 0 start e stop in
    let value : (read_digits base (cs ++ rest) 0 start).0 % 2 ^ 64 ≡ number base ds % 2 ^ 64 =
      r.0 ∙ omega arith in
    let moved : ((read_digits base (cs ++ rest) 0 start).1 == start) ≡ false =
      ground (arith, r.1) in
    rw (left, value, moved, r.1) refl

-- The conversion, the base that it reads, the mark of the base and the first digit.
pub data Marked (conv base : ℕ) (mark : List ℕ) (first : ℕ) : Type 0 where
  decimal : (conv ≡ b'd') ⊎ (conv ≡ b'u') → base ≡ 10 → mark ≡ [] → Marked conv base mark first
  octal : conv ≡ b'o' → base ≡ 8 → mark ≡ [] → Marked conv base mark first
  hexadecimal :
      (conv ≡ b'x') ⊎ (conv ≡ b'X') ⊎ (conv ≡ b'p') ⊎ (conv ≡ b'i')
      → base ≡ 16
      → (mark ≡ b'0' ∷ b'x' ∷ []) ⊎ (mark ≡ b'0' ∷ b'X' ∷ [])
      → Marked conv base mark first
  binary :
      (conv ≡ b'b') ⊎ (conv ≡ b'i')
      → base ≡ 2
      → (mark ≡ b'0' ∷ b'b' ∷ []) ⊎ (mark ≡ b'0' ∷ b'B' ∷ [])
      → Marked conv base mark first
  detected : conv ≡ b'i' → base ≡ 10 → mark ≡ [] → first ≢ b'0' → Marked conv base mark first

abbrev Chosen : ℕ → ℕ → List ℕ → ℕ → List ℕ → Type 0
Chosen conv base mark first rest =
    (allowed : ℕ × Bool) × (conv_base conv ≡ some allowed)
    × (choose_base allowed (mark ++ first ∷ rest) ≡ (base, length mark))

is_digit_lem : (base c d : ℕ) → digit_in base c ≡ some d → is_digit_in base c ≡ true
unfolding is_digit_in
is_digit_lem base c d e = rw (is_digit_in, e) refl

prefixed :
    (mark base m first : ℕ) (rest : List ℕ)
    → (m ≡ mark) ⊎ (m ≡ mark - 32)
    → is_digit_in base first ≡ true
    → has_prefix mark base (b'0' ∷ m ∷ first ∷ rest) ≡ true
unfolding has_prefix
prefixed mark base m first rest is d = ground arith

not_marked :
    (base m first : ℕ) (rest : List ℕ)
    → (m ≡ b'b') ⊎ (m ≡ b'B')
    → has_prefix b'x' 16 (b'0' ∷ m ∷ first ∷ rest) ≡ false
unfolding has_prefix
not_marked base m first rest is = ground arith

-- With a mark, its letter is `m`.
marked_16 :
    (conv m first : ℕ) (rest : List ℕ)
    → (conv ≡ b'x') ⊎ (conv ≡ b'X') ⊎ (conv ≡ b'p') ⊎ (conv ≡ b'i')
    → (m ≡ b'x') ⊎ (m ≡ b'X')
    → is_digit_in 16 first ≡ true
    → Chosen conv 16 (b'0' ∷ m ∷ []) first rest
unfolding conv_base choose_base starts_with_zero
marked_16 conv m first rest c is d = elim (Bool-cases (conv == b'i')) [
  | inl any ↦ ((0, false), ground arith, rw (choose_base, prefixed b'x' 16 m first rest is d) refl)
  | inr one ↦ ((16, true), ground arith, rw (choose_base, prefixed b'x' 16 m first rest is d) refl)
]

marked_2 :
    (conv m first : ℕ) (rest : List ℕ)
    → (conv ≡ b'b') ⊎ (conv ≡ b'i')
    → (m ≡ b'b') ⊎ (m ≡ b'B')
    → is_digit_in 2 first ≡ true
    → Chosen conv 2 (b'0' ∷ m ∷ []) first rest
unfolding conv_base choose_base starts_with_zero
marked_2 conv m first rest c is d = elim (Bool-cases (conv == b'i')) [
  | inl any ↦ (
    (0, false),
    ground arith,
    rw (choose_base, not_marked 2 m first rest is, prefixed b'b' 2 m first rest is d) refl,
  )
  | inr one ↦ ((2, true), ground arith, rw (choose_base, prefixed b'b' 2 m first rest is d) refl)
]

Marked-Chosen :
    (conv base : ℕ) (mark : List ℕ) (first digit : ℕ) (rest : List ℕ)
    → Marked conv base mark first
    → digit_in base first ≡ some digit
    → Chosen conv base mark first rest
unfolding conv_base choose_base starts_with_zero
Marked-Chosen conv base mark first digit rest (decimal c b m) e =
    ((10, false), ground arith, rw (b, m) refl)
Marked-Chosen conv base mark first digit rest (octal c b m) e =
    ((8, false), ground arith, rw (b, m) refl)
Marked-Chosen conv base mark first digit rest (hexadecimal c b m) e =
    let d = subst (λ i. is_digit_in i first ≡ true) b (is_digit_lem base first digit e) in
    elim m [
      | inl lower ↦ rw (b, lower) (marked_16 conv b'x' first rest c (inl refl) d)
      | inr upper ↦ rw (b, upper) (marked_16 conv b'X' first rest c (inr refl) d)
    ]
Marked-Chosen conv base mark first digit rest (binary c b m) e =
    let d = subst (λ i. is_digit_in i first ≡ true) b (is_digit_lem base first digit e) in
    elim m [
      | inl lower ↦ rw (b, lower) (marked_2 conv b'b' first rest c (inl refl) d)
      | inr upper ↦ rw (b, upper) (marked_2 conv b'B' first rest c (inr refl) d)
    ]
Marked-Chosen conv base mark first digit rest (detected c b m z) e =
    ((0, false), ground arith, rw (b, m) (ground arith))

abbrev ZeroFirst : (mark : List ℕ) → Type 0
ZeroFirst mark = (mark ≡ []) ⊎ ((m : ℕ) × (mark ≡ b'0' ∷ m ∷ []))

mark_cases :
    (conv base : ℕ) (mark : List ℕ) (first : ℕ) → Marked conv base mark first → ZeroFirst mark
mark_cases conv base mark first (decimal c b m) = inl m
mark_cases conv base mark first (octal c b m) = inl m
mark_cases conv base mark first (hexadecimal c b (inl m)) = inr (_, m)
mark_cases conv base mark first (hexadecimal c b (inr m)) = inr (_, m)
mark_cases conv base mark first (binary c b (inl m)) = inr (_, m)
mark_cases conv base mark first (binary c b (inr m)) = inr (_, m)
mark_cases conv base mark first (detected c b m z) = inl m

-- Neither a mark nor a digit is a sign.
parse_unsigned :
    (conv first : ℕ) (mark rest : List ℕ)
    → ZeroFirst mark
    → is_sign first ≡ false
    → parse_signed conv (mark ++ first ∷ rest) ≡ parse_magnitude conv false (mark ++ first ∷ rest) 0
unfolding parse_signed is_sign
parse_unsigned conv first mark rest (inl none_at_all) plain =
    rw none_at_all (rw (parse_signed, plain) refl)
parse_unsigned conv first mark rest (inr (m, is)) plain = rw is refl

parse_after :
    (conv cursor first : ℕ) (negative : Bool) (allowed : ℕ × Bool) (mark rest : List ℕ)
    → ZeroFirst mark
    → conv_base conv ≡ some allowed
    → parse_magnitude conv negative (mark ++ first ∷ rest) cursor
      ≡ parse_base negative
          (mark ++ first ∷ rest)
          cursor
          (choose_base allowed (mark ++ first ∷ rest))
unfolding parse_magnitude
parse_after conv cursor first negative allowed mark rest (inl none_at_all) e =
    rw none_at_all (rw (parse_magnitude, e) refl)
parse_after conv cursor first negative allowed mark rest (inr (m, is)) e =
    rw is (rw (parse_magnitude, e) refl)

parse_magnitude-number :
    (conv base cursor first : ℕ) (negative : Bool) (mark cs ds rest : List ℕ)
    → Marked conv base mark first
    → Digits base (first ∷ cs) ds
    → Stops base rest
    → parse_magnitude conv negative (mark ++ first ∷ (cs ++ rest)) cursor
      ≡ some (
        cursor + length mark + suc (length cs),
        (if negative then (2 ^ 64 - number base ds % 2 ^ 64) % 2 ^ 64 else number base ds % 2 ^ 64),
      )
parse_magnitude-number conv base cursor first negative mark cs [] rest marked e stop = absurd e
parse_magnitude-number conv base cursor first negative mark cs (d ∷ ds) rest marked e stop =
    let (allowed, known, chosen) = Marked-Chosen conv base mark first d (cs ++ rest) marked e.0 in
    parse_after conv cursor first negative allowed mark (cs ++ rest)
      (mark_cases conv base mark first marked) known
    ∙ ap (parse_base negative (mark ++ first ∷ (cs ++ rest)) cursor) chosen
    ∙ parse_base-number negative base (length mark) cursor (mark ++ first ∷ (cs ++ rest))
        (first ∷ cs) (d ∷ ds) rest (drop-length mark (first ∷ (cs ++ rest))) (omega arith) e stop

parse_signed-number :
    (conv base first : ℕ) (sign : Sign) (mark cs ds rest : List ℕ)
    → Marked conv base mark first
    → (sign ≡ unsigned) ⊎ (conv ≢ b'p')
    → Digits base (first ∷ cs) ds
    → Stops base rest
    → parse_signed conv (written sign ++ (mark ++ first ∷ (cs ++ rest)))
      ≡ some (length (written sign) + length mark + suc (length cs), signed sign (number base ds))
unfolding parse_signed
parse_signed-number conv base first unsigned mark cs [] rest marked allowed e stop = absurd e
parse_signed-number conv base first unsigned mark cs (d ∷ ds) rest marked allowed e stop =
    parse_unsigned conv first mark (cs ++ rest) (mark_cases conv base mark first marked)
      (digit_no_sign base first d e.0)
    ∙ parse_magnitude-number conv base 0 first false mark cs (d ∷ ds) rest marked e stop
parse_signed-number conv base first plus mark cs ds rest marked (inl is) e stop = cc
parse_signed-number conv base first plus mark cs ds rest marked (inr no_pointer) e stop =
    let reads : (is_sign b'+' && not (conv == b'p')) ≡ true = ground arith in
    rw (parse_signed, reads)
      (parse_magnitude-number conv base 1 first false mark cs ds rest marked e stop)
parse_signed-number conv base first minus mark cs ds rest marked (inl is) e stop = cc
parse_signed-number conv base first minus mark cs ds rest marked (inr no_pointer) e stop =
    let reads : (is_sign b'-' && not (conv == b'p')) ≡ true = ground arith in
    rw (parse_signed, reads)
      (parse_magnitude-number conv base 1 first true mark cs ds rest marked e stop)

-- Where a sign or none, the mark of the base that the conversion reads, and digits of the base are
-- written, and the directive has no width, parse_integer_value consumes just these up to the first
-- character that is no digit of the base, and returns the bits of the number that the digits stand
-- for, or of its negative, modulo 2^64, however many digits there are. %d and %u read base 10, %o base 8, %x, %X and %p base 16 behind 0x or 0X, %b base 2
-- behind 0b or 0B, and %i finds 16 and 2 by their marks and reads base 10 where the first digit is
-- not 0. %p takes no sign.
pub parse_integer_value-number :
    (input : List ℕ) (pos conv base first : ℕ) (sign : Sign) (mark cs ds rest : List ℕ)
    → Marked conv base mark first
    → (sign ≡ unsigned) ⊎ (conv ≢ b'p')
    → Digits base (first ∷ cs) ds
    → Stops base rest
    → drop pos input ≡ written sign ++ (mark ++ first ∷ (cs ++ rest))
    → parse_integer_value input pos conv none
      ≡ some (length (written sign) + length mark + suc (length cs), signed sign (number base ds))
unfolding parse_integer_value
parse_integer_value-number input pos conv base first sign mark cs ds rest marked allowed e stop is =
    ap (parse_signed conv) (take-all (length (drop pos input)) (drop pos input) (omega arith) ∙ is)
    ∙ parse_signed-number conv base first sign mark cs ds rest marked allowed e stop
