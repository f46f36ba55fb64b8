-- ===== src/Scan/Lossless.antt =====
-- The tokens of a format spell the format.
use cross_shim.Base.{
  ℕ, zero, suc, ◌≤◌, ◌≡◌, refl, ap, ap₂, sym, subst, ◌∙◌, Bool, true, Option, none, some, List, [],
  ◌∷◌, ◌++◌, ◌⊎◌, inl, inr, length, ◌==◌, if◌then◌else◌, arith, Bool-cases, Option-cases, ==_iff,
}
use mathlib.Core.List.{append_assoc, append-nil}
use cross_shim.Scan.Format.{
  ScanDirective, ScanToken, literal, directive, ScanParseResult, parsed, failed, ScanLengthMod,
  read_flag, maybe_width, read_length, read_conv, directive_end, directive_conv, read_directive,
  flush_literal, parse_loop, parse_scan_format,
}
use cross_shim.Scan.Suffix.{
  Suffix, Suffix-cons, Suffix-trans, Suffix-length, between_places-append, read_flag-Suffix, Left,
  maybe_width-Left, Modified, read_length-Modified, Leaves, read_conv-Leaves,
}

-- A literal as it stands in a format, each `%` doubled.
unfoldable pub escape : List ℕ → List ℕ
escape [] = []
escape (c ∷ cs) = if c == b'%' then c ∷ c ∷ escape cs else c ∷ escape cs

-- The format that tokens came from.
pub spelled : List ScanToken → List ℕ
spelled [] = []
spelled (literal cs ∷ ts) = escape cs ++ spelled ts
spelled (directive spec ∷ ts) = spec.original ++ spelled ts

escape-append : (cs ds : List ℕ) → escape (cs ++ ds) ≡ escape cs ++ escape ds
unfolding escape
escape-append [] ds = refl
escape-append (c ∷ cs) ds = elim (Bool-cases (c == b'%')) [
  | inl e ↦ rw (escape, e) (ap (λ xs. c ∷ c ∷ xs) (escape-append cs ds))
  | inr e ↦ rw (escape, e) (ap (λ xs. c ∷ xs) (escape-append cs ds))
]

spelled-append : (ts us : List ScanToken) → spelled (ts ++ us) ≡ spelled ts ++ spelled us
unfolding spelled
spelled-append [] us = refl
spelled-append (literal cs ∷ ts) us =
    ap (◌++◌ (escape cs)) (spelled-append ts us)
    ∙ sym (append_assoc (escape cs) (spelled ts) (spelled us))
spelled-append (directive spec ∷ ts) us =
    ap (◌++◌ spec.original) (spelled-append ts us)
    ∙ sym (append_assoc spec.original (spelled ts) (spelled us))

spelled-flush :
    (pending : List ℕ) (tokens : List ScanToken)
    → spelled (flush_literal pending tokens) ≡ spelled tokens ++ escape pending
unfolding spelled flush_literal escape
spelled-flush [] tokens = sym (append-nil (spelled tokens))
spelled-flush (c ∷ pending) tokens =
    spelled-append tokens (literal (c ∷ pending) ∷ [])
    ∙ ap (◌++◌ (spelled tokens)) (append-nil (escape (c ∷ pending)))

-- A directive that was read, and what is left, spell what was given.
abbrev Spelled : List ℕ → (ℕ × List ℕ) ⊎ (ScanDirective × List ℕ) → Type 0
Spelled rest (inl error) = Unit {0}
Spelled rest (inr (spec, left)) =
    (spec.original ++ left ≡ b'%' ∷ rest) × (length left ≤ length rest)

directive_end-Spelled :
    (rest xs : List ℕ) (spec : ScanDirective) (o : Option (List ℕ))
    → Suffix rest xs
    → Leaves xs o
    → Spelled rest (directive_end (b'%' ∷ rest) spec o)
unfolding directive_end
directive_end-Spelled rest xs spec none s end = tt
directive_end-Spelled rest xs spec (some left) s end =
    let all = Suffix-trans rest xs left s end in
    (
      between_places-append (b'%' ∷ rest) left (Suffix-cons b'%' rest left all),
      Suffix-length rest left all,
    )

directive_conv-Spelled :
    (rest xs : List ℕ) (suppress : Bool) (width : Option ℕ) (assign_alloc : Bool)
    (o : List ℕ ⊎ (ScanLengthMod × ℕ × List ℕ))
    → Suffix rest xs
    → Modified xs o
    → Spelled rest (directive_conv (b'%' ∷ rest) suppress width assign_alloc o)
unfolding directive_conv
directive_conv-Spelled rest xs suppress width assign_alloc (inl message) s modified = tt
directive_conv-Spelled rest xs suppress width assign_alloc (inr (m, bits, [])) s modified = tt
directive_conv-Spelled rest xs suppress width assign_alloc (inr (m, bits, conv ∷ more)) s modified =
    let spec : ScanDirective = record {
      original = [];
      suppress = suppress;
      assign_alloc = assign_alloc;
      width = width;
      length_mod = m;
      w_bits = bits;
      conv = conv;
    } in
    directive_end-Spelled rest more spec (read_conv conv more)
      (Suffix-trans rest (conv ∷ more) more (Suffix-trans rest xs (conv ∷ more) s modified)
        (conv ∷ [], refl))
      (read_conv-Leaves conv more)

read_directive-Spelled : (rest : List ℕ) → Spelled rest (read_directive rest)
unfolding read_directive
read_directive-Spelled rest =
    let r1 = (read_flag b'*' rest).1 in
    let s1 = read_flag-Suffix b'*' rest in
    elim (Option-cases (maybe_width r1)) [
      | inl e ↦ rw (read_directive, e) tt
      | inr ((width, r2), e) ↦
          let s2 : Suffix r1 r2 = subst (Left r1) e (maybe_width-Left r1) in
          let r3 = (read_flag b'm' r2).1 in
          let to3 =
            Suffix-trans rest r1 r3 s1 (Suffix-trans r1 r2 r3 s2 (read_flag-Suffix b'm' r2)) in
          rw (read_directive, e)
            (directive_conv-Spelled rest r3 _ width _ (read_length r3) to3
              (read_length-Modified r3))
    ]

-- What a run makes of the rest of a format, behind tokens and a pending literal.
abbrev Ends : List ℕ → List ℕ → List ScanToken → ScanParseResult → Type 0
Ends fmt pending tokens r =
    ((ts : List ScanToken) × (r ≡ parsed ts)
      × (spelled ts ≡ spelled tokens ++ (escape pending ++ fmt)))
    ⊎ ((error : ℕ) × (message : List ℕ) × (r ≡ failed error message))

-- A `%` behind a `%` belongs to the literal.
read_flag-spells :
    (flag : ℕ) (rest : List ℕ)
    → (read_flag flag rest).0 ≡ true
    → rest ≡ flag ∷ (read_flag flag rest).1
unfolding read_flag
read_flag-spells flag [] e = ground arith
read_flag-spells flag (c ∷ rest) e = elim (Bool-cases (c == flag)) [
  | inl same ↦ rw (read_flag, same) (ap (λ i. i ∷ rest) ((==_iff c flag).0 same))
  | inr other ↦ ground (arith, rw (read_flag, other) at e)
]

-- A character joins the pending literal.
extended :
    (c : ℕ) (fmt rest pending : List ℕ) (tokens : List ScanToken) (r : ScanParseResult)
    → escape (c ∷ []) ++ rest ≡ fmt
    → Ends rest (pending ++ (c ∷ [])) tokens r
    → Ends fmt pending tokens r
extended c fmt rest pending tokens r same (inr failure) = inr failure
extended c fmt rest pending tokens r same (inl (ts, is, spells)) = inl (
  ts,
  is,
  spells
      ∙ ap (λ xs. spelled tokens ++ (xs ++ rest)) (escape-append pending (c ∷ []))
      ∙ ap (λ xs. spelled tokens ++ xs)
          (append_assoc (escape pending) (escape (c ∷ [])) rest ∙ ap (◌++◌ (escape pending)) same),
)

directed :
    (fmt rest left pending : List ℕ) (tokens : List ScanToken) (spec : ScanDirective)
    (r : ScanParseResult)
    → fmt ≡ b'%' ∷ rest
    → spec.original ++ left ≡ b'%' ∷ rest
    → Ends left [] (flush_literal pending tokens ++ (directive spec ∷ [])) r
    → Ends fmt pending tokens r
unfolding escape spelled
directed fmt rest left pending tokens spec r is_percent same (inr failure) = inr failure
directed fmt rest left pending tokens spec r is_percent same (inl (ts, is, spells)) = inl (
  ts,
  is,
  spells
      ∙ ap (λ xs. xs ++ left)
          (spelled-append (flush_literal pending tokens) (directive spec ∷ [])
            ∙ ap₂ (λ xs ys. xs ++ ys) (spelled-flush pending tokens) (append-nil spec.original))
      ∙ append_assoc (spelled tokens ++ escape pending) spec.original left
      ∙ ap (◌++◌ (spelled tokens ++ escape pending)) same
      ∙ append_assoc (spelled tokens) (escape pending) (b'%' ∷ rest)
      ∙ ap (λ xs. spelled tokens ++ (escape pending ++ xs)) (sym is_percent),
)

-- Behind a `%` that no `%` follows.
directed_run :
    (fuel : ℕ) (fmt rest pending : List ℕ) (tokens : List ScanToken)
    (read : (ℕ × List ℕ) ⊎ (ScanDirective × List ℕ))
    → fmt ≡ b'%' ∷ rest
    → Spelled rest read
    → ((left : List ℕ) (ts : List ScanToken)
        → length left ≤ length rest
        → Ends left [] ts (parse_loop fuel left [] ts))
    → Ends fmt pending tokens (elim read as (λ _. ScanParseResult) [
      | inl (error, message) ↦ failed error message
      | inr (spec, left) ↦
          parse_loop fuel left [] (flush_literal pending tokens ++ (directive spec ∷ []))
    ])
directed_run fuel fmt rest pending tokens (inl (error, message)) is_percent s rec =
    inr (error, message, refl)
directed_run fuel fmt rest pending tokens (inr (spec, left)) is_percent (same, shorter) rec =
    directed fmt rest left pending tokens spec _ is_percent same (rec left _ shorter)

parse_loop-Ends :
    (fuel : ℕ) (fmt pending : List ℕ) (tokens : List ScanToken)
    → length fmt ≤ fuel
    → Ends fmt pending tokens (parse_loop fuel fmt pending tokens)
unfolding parse_loop escape
parse_loop-Ends fuel [] pending tokens enough = inl (
  flush_literal pending tokens,
  refl,
  spelled-flush pending tokens ∙ ap (◌++◌ (spelled tokens)) (sym (append-nil (escape pending))),
)
parse_loop-Ends zero (c ∷ rest) pending tokens enough = absurd (omega arith)
parse_loop-Ends (suc fuel) (c ∷ rest) pending tokens enough =
    let rest' = (read_flag b'%' rest).1 in
    let shorter = Suffix-length rest rest' (read_flag-Suffix b'%' rest) in
    let plain = parse_loop-Ends fuel rest (pending ++ (c ∷ [])) tokens (omega arith) in
    let percent =
      parse_loop-Ends fuel rest' (pending ++ (b'%' ∷ [])) tokens (omega (arith, shorter)) in
    let rec = λ (left : List ℕ) (ts : List ScanToken) (less : length left ≤ length rest).
      parse_loop-Ends fuel left [] ts (omega arith) in
    elim (Bool-cases (c == b'%')) [
      | inr other ↦
          rw (parse_loop, other)
            (extended c (c ∷ rest) rest pending tokens _ (rw (escape, other) refl) plain)
      | inl same ↦ elim (Bool-cases (read_flag b'%' rest).0) [
        | inl twice ↦
            rw (parse_loop, same, twice)
              (extended b'%' (c ∷ rest) rest' pending tokens _
                (ap₂ (λ i xs. i ∷ xs) (sym ((==_iff c b'%').0 same))
                  (sym (read_flag-spells b'%' rest twice)))
                percent)
        | inr once ↦
            rw (parse_loop, same, once)
              (directed_run fuel (c ∷ rest) rest pending tokens (read_directive rest)
                (ap (λ i. i ∷ rest) ((==_iff c b'%').0 same)) (read_directive-Spelled rest) rec)
      ]
    ]

-- The parser of scanf's formats ends on every format and loses nothing: it reports an error, or it
-- returns tokens that spell the format, the literals with each `%` doubled and each directive by the
-- text that it keeps.
pub parse_scan_format-spelled :
    (fmt : List ℕ)
    → ((ts : List ScanToken) × (parse_scan_format fmt ≡ parsed ts) × (spelled ts ≡ fmt))
      ⊎ ((error : ℕ) × (message : List ℕ) × (parse_scan_format fmt ≡ failed error message))
unfolding parse_scan_format spelled escape
parse_scan_format-spelled fmt = parse_loop-Ends (length fmt) fmt [] [] (omega arith)
