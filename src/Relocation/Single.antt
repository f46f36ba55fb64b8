-- ===== src/Relocation/Single.antt =====
-- What one relocation writes, and what it leaves alone.
use cross_shim.Base.{
  ℕ, ◌+◌, ◌<◌, ◌≡◌, refl, Bool, true, false, ◌&&◌, ◌||◌, not, Option, none, some, List, [], ◌∷◌,
  ◌++◌, ◌==◌, if◌then◌else◌, arith, Bool-cases, Option-cases, inl, inr,
}
use cross_shim.Base.Word.{add64, u64_mod}
use cross_shim.Memory.{MemoryManager, read, write}
use cross_shim.Memory.Host.{Qemu}
use cross_shim.Memory.Words.{little_endian, from_bytes}
use cross_shim.Memory.ReadWrite.{
  Apart, RegionsValid, NoGuest, read-write, read-write-Apart, write-kept,
}
use cross_shim.Relocation.{
  Relocation, SymbolResolver, RelocationHandler, is_relative, is_abs64, is_slot, symbol_address,
  is_empty, add_unresolved, write_word, apply_symbol, apply_relative, process_relocation,
}

-- Whether a relocation of this type writes a word.
abbrev pub writes : Relocation → Bool
writes r = is_relative r || is_abs64 r || is_slot r

abbrev pub place : ℕ → Relocation → ℕ
place base r = add64 base r.offset

module _ {G : Type 0} (q : Qemu G) (resolver : SymbolResolver) (base : ℕ) where
  -- The bytes that a relocation asks for, by those in its place: B + A, with the word in place for
  -- an addend 0, or S + A.
  abbrev pub moved : Option (List ℕ) → Option (List ℕ)
  moved none = none
  moved (some existing) = some (little_endian 8 (add64 base (from_bytes existing)))

  abbrev pub asked : Option (List ℕ) → Relocation → Option (List ℕ)
  asked existing r =
      if is_relative r
      then (if r.addend == 0 then moved existing else some (little_endian 8 (add64 base r.addend)))
      else some (
          little_endian 8
            (add64 (symbol_address resolver base r.symbol_name r.symbol_value) r.addend))

  abbrev pub relocated : MemoryManager G → Relocation → Option (List ℕ)
  relocated m r = asked (read q m (place base r) 8) r

  -- What stays when the word at an address may be written.
  abbrev pub Kept : MemoryManager G → ℕ → MemoryManager G → Type 0
  Kept m a m' =
      NoGuest q m'
      × (m'.regions ≡ m.regions)
      × ((b : ℕ) → b + 8 < u64_mod → Apart a 8 b 8 → read q m' b 8 ≡ read q m b 8)

  module _ (h : RelocationHandler G) (off : NoGuest q h.memory)
      (valid : RegionsValid h.memory.regions) where
    same-Kept : (a : ℕ) → Kept h.memory a h.memory
    same-Kept a = (off, refl, λ b fits d. refl)

    write_word-Kept : (a w : ℕ) → a + 8 < u64_mod → Kept h.memory a (write_word q h a w).0.memory
    unfolding write_word little_endian
    write_word-Kept a w ends = elim (Option-cases (write q h.memory a (little_endian 8 w))) [
      | inl e ↦ rw (write_word, e) (same-Kept a)
      | inr (m, e) ↦
          let (off', same) = write-kept q h.memory m a (little_endian 8 w) off e in
          rw (write_word, e)
            (
              off',
              same,
              λ b fits d.
                  read-write-Apart q h.memory m a b 8 (little_endian 8 w) off valid ends fits d e,
            )
    ]

    write_word-read :
        (a w : ℕ)
        → (write_word q h a w).1 ≡ true
        → read q (write_word q h a w).0.memory a 8 ≡ some (little_endian 8 w)
    unfolding write_word little_endian
    write_word-read a w ok = elim (Option-cases (write q h.memory a (little_endian 8 w))) [
      | inl e ↦
          let refused : (write_word q h a w).1 ≡ false = rw (write_word, e) refl in
          ground (arith, refused, ok)
      | inr (m, e) ↦ rw (write_word, e) (read-write q h.memory m a (little_endian 8 w) off e)
    ]

  module _ (h : RelocationHandler G) (off : NoGuest q h.memory)
      (valid : RegionsValid h.memory.regions) where
    add_unresolved-Kept :
        (name : List ℕ) (value a w : ℕ)
        → a + 8 < u64_mod
        → Kept h.memory a (write_word q (add_unresolved h name value) a w).0.memory
    unfolding add_unresolved
    add_unresolved-Kept name value a w ends =
        elim (Bool-cases ((value == 0) && not (is_empty name))) [
          | inl e ↦
              rw (add_unresolved, e)
                (write_word-Kept (record h { unresolved = h.unresolved ++ name ∷ [] }) off valid a w
                  ends)
          | inr e ↦ rw (add_unresolved, e) (write_word-Kept h off valid a w ends)
        ]

    -- Every relocation keeps the words apart from its own.
    pub process-Kept :
        (r : Relocation)
        → place base r + 8 < u64_mod
        → Kept h.memory (place base r) (process_relocation q h resolver base r).0.memory
    unfolding process_relocation apply_relative apply_symbol
    process-Kept r ends = elim (Bool-cases (is_relative r)) [
      | inl rel ↦ elim (Bool-cases (r.addend == 0)) [
        | inl implicit ↦ elim (Option-cases (read q h.memory (place base r) 8)) [
          | inl e ↦ rw (rel, implicit, e) (same-Kept h off valid (place base r))
          | inr (old, e) ↦ rw (rel, implicit, e) (write_word-Kept h off valid (place base r) _ ends)
        ]
        | inr explicit ↦ rw (rel, explicit) (write_word-Kept h off valid (place base r) _ ends)
      ]
      | inr other ↦ elim (Bool-cases (is_abs64 r)) [
        | inl abs ↦
            elim (Bool-cases (
              (symbol_address resolver base r.symbol_name r.symbol_value == 0)
              && not (is_empty r.symbol_name))) [
                | inl missing ↦ rw (other, abs, missing) (same-Kept h off valid (place base r))
                | inr known ↦
                    rw (other, abs, known) (write_word-Kept h off valid (place base r) _ ends)
              ]
        | inr other' ↦ elim (Bool-cases (is_slot r)) [
          | inl slot ↦ rw (other, other', slot) (add_unresolved-Kept _ _ (place base r) _ ends)
          | inr none' ↦ rw (other, other', none') (same-Kept h off valid (place base r))
        ]
      ]
    ]

    unresolved-read :
        (name : List ℕ) (value a w : ℕ)
        → (write_word q (add_unresolved h name value) a w).1 ≡ true
        → read q (write_word q (add_unresolved h name value) a w).0.memory a 8
          ≡ some (little_endian 8 w)
    unfolding add_unresolved
    unresolved-read name value a w = elim (Bool-cases ((value == 0) && not (is_empty name))) [
      | inl e ↦
          rw (add_unresolved, e)
            (write_word-read (record h { unresolved = h.unresolved ++ name ∷ [] }) off valid a w)
      | inr e ↦ rw (add_unresolved, e) (write_word-read h off valid a w)
    ]

    -- A relocation that succeeds leaves the word that it asks for.
    pub process-read :
        (r : Relocation)
        → writes r ≡ true
        → (process_relocation q h resolver base r).1 ≡ true
        → read q (process_relocation q h resolver base r).0.memory (place base r) 8
          ≡ relocated h.memory r
    unfolding process_relocation apply_relative apply_symbol
    process-read r w = elim (Bool-cases (is_relative r)) [
      | inl rel ↦ elim (Bool-cases (r.addend == 0)) [
        | inl implicit ↦ elim (Option-cases (read q h.memory (place base r) 8)) [
          | inl e ↦ rw (rel, implicit, e) (λ ok. ground (arith, ok))
          | inr (old, e) ↦ rw (rel, implicit, e) (write_word-read h off valid (place base r) _)
        ]
        | inr explicit ↦ rw (rel, explicit) (write_word-read h off valid (place base r) _)
      ]
      | inr other ↦ elim (Bool-cases (is_abs64 r)) [
        | inl abs ↦
            elim (Bool-cases (
              (symbol_address resolver base r.symbol_name r.symbol_value == 0)
              && not (is_empty r.symbol_name))) [
                | inl missing ↦ rw (other, abs, missing) (λ ok. ground (arith, ok))
                | inr known ↦ rw (other, abs, known) (write_word-read h off valid (place base r) _)
              ]
        | inr other' ↦
            let slot : is_slot r ≡ true = ground arith in
            rw (other, other', slot) (unresolved-read _ _ (place base r) _)
      ]
    ]
