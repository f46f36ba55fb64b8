-- ===== src/Scan/Literal.antt =====
-- A format without directives.
use cross_shim.Base.{
  ℕ, zero, suc, ◌≤◌, ◌<◌, ◌≡◌, ap, sym, ◌∙◌, List, [], ◌∷◌, ◌++◌, inl, inr, length, ◌==◌, arith,
  Bool-cases, ==_iff,
}
use mathlib.Core.List.{append_assoc, append-nil}
use cross_shim.Scan.Format.{
  ScanToken, parsed, read_flag, flush_literal, parse_loop, parse_scan_format,
}
use cross_shim.Scan.Lossless.{escape}

escape_grows : (c : ℕ) (cs : List ℕ) → length (escape cs) < length (escape (c ∷ cs))
unfolding escape
escape_grows c cs = elim (Bool-cases (c == b'%')) [
  | inl e ↦ rw (escape, e) (omega arith)
  | inr e ↦ rw (escape, e) (omega arith)
]

parse_loop-escape :
    (fuel : ℕ) (cs pending : List ℕ) (tokens : List ScanToken)
    → length (escape cs) ≤ fuel
    → parse_loop fuel (escape cs) pending tokens ≡ parsed (flush_literal (pending ++ cs) tokens)
unfolding parse_loop escape read_flag
parse_loop-escape fuel [] pending tokens enough =
    ap (λ xs. parsed (flush_literal xs tokens)) (sym (append-nil pending))
parse_loop-escape zero (c ∷ cs) pending tokens enough = absurd (omega (arith, escape_grows c cs))
parse_loop-escape (suc fuel) (c ∷ cs) pending tokens enough =
    let longer = ap (λ xs. parsed (flush_literal xs tokens)) (append_assoc pending (c ∷ []) cs) in
    let fewer : length (escape cs) ≤ fuel = omega (arith, escape_grows c cs) in
    let rest = parse_loop-escape fuel cs (pending ++ (c ∷ [])) tokens fewer ∙ longer in
    elim (Bool-cases (c == b'%')) [
      | inl e ↦
          let percent : c ≡ b'%' = (==_iff c b'%').0 e in
          rw (escape, e, parse_loop, e)
            (ap (λ i. parse_loop fuel (escape cs) (pending ++ (i ∷ [])) tokens) (sym percent)
              ∙ rest)
      | inr e ↦ rw (escape, e, parse_loop, e) rest
    ]

-- Every text is the literal of a format: with each `%` doubled it is parsed to the one token that
-- holds the text itself, and to none if it is empty.
pub parse_scan_format-escape :
    (cs : List ℕ) → parse_scan_format (escape cs) ≡ parsed (flush_literal cs [])
unfolding parse_scan_format
parse_scan_format-escape cs = parse_loop-escape (length (escape cs)) cs [] [] (omega arith)
