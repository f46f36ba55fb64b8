-- ===== src/Search/Append.antt =====
-- lfind and lsearch, on elements that are equal to the key and on a key that has none.
use cross_shim.Base.{
  ℕ, zero, suc, ◌+◌, ◌%◌, ◌^◌, ◌<◌, ◌≡◌, ◌⊎◌, refl, ap, ◌∙◌, true, false, none, some, List, length,
  arith, inl, inr, Bool-cases,
}
use cross_shim.Base.Word.{u64_mod}
use cross_shim.Memory.{MemoryManager, read}
use cross_shim.Memory.Host.{Qemu}
use cross_shim.Memory.Words.{little_endian}
use cross_shim.Memory.ReadWrite.{Apart}
use cross_shim.Search.{found, placed, load, save}
use cross_shim.Memory.Running.{
  Debug, Sound, Writable, put, put-Sound, put-Writable, write-put, read-put, read-put-Apart,
}
use cross_shim.Search.Words.{save-put, load-save}
use cross_shim.Search.Linear.{element, same, first_same, lfind, lsearch, append_key, read_key}

module _ (compar : ℕ → ℕ → ℕ) (key base size : ℕ) where
  -- None of the `n` elements from the one at `i` on is equal to the key.
  abbrev pub Differ : ℕ → ℕ → Type 0
  Differ i n = (j : ℕ) → j < n → same compar key (element base size (i + j)) ≡ false

  abbrev pub First : ℕ → ℕ → ℕ → Type 0
  First i n a =
      (j : ℕ) × (j < n) × (a ≡ element base size (i + j)) × (same compar key a ≡ true) × Differ i j

  Differ-suc :
      (i n : ℕ)
      → same compar key (element base size i) ≡ false
      → Differ (suc i) n
      → Differ i (suc n)
  Differ-suc i n other rest zero small =
      let e : i + 0 ≡ i = omega arith in
      ap (λ (k : ℕ). same compar key (element base size k)) e ∙ other
  Differ-suc i n other rest (suc j) small =
      let e : i + suc j ≡ suc i + j = omega arith in
      ap (λ (k : ℕ). same compar key (element base size k)) e ∙ rest j (omega arith)

  -- The rounds return the first equal element, or nothing if there is none.
  pub first_same-First :
      (i n : ℕ)
      → ((first_same compar key base size i n ≡ none) × Differ i n)
        ⊎ ((a : ℕ) × (first_same compar key base size i n ≡ some a) × First i n a)
  unfolding first_same
  first_same-First i zero = inl (refl, λ j small. absurd (omega arith))
  first_same-First i (suc n) = elim (Bool-cases (same compar key (element base size i))) [
    | inl equal ↦
        let e : element base size i ≡ element base size (i + 0) =
          ap (λ (k : ℕ). element base size k) (omega arith) in
        inr (
          element base size i,
          rw (first_same, equal) refl,
          (0, omega arith, e, equal, λ j small. absurd (omega arith)),
        )
    | inr other ↦ elim (first_same-First (suc i) n) [
      | inl (e, differ) ↦ inl (rw (first_same, other) e, Differ-suc i n other differ)
      | inr (a, e, (j, small, is, equal, differ)) ↦
          let at : suc i + j ≡ i + suc j = omega arith in
          inr (
            a,
            rw (first_same, other) e,
            (
              suc j,
              omega arith,
              is ∙ ap (λ (k : ℕ). element base size k) at,
              equal,
              Differ-suc i j other differ,
            ),
          )
    ]
  ]

  first_same-Differ : (n : ℕ) → Differ 0 n → first_same compar key base size 0 n ≡ none
  first_same-Differ n differ = elim (first_same-First 0 n) [
    | inl (e, _) ↦ e
    | inr (a, e, (j, small, is, equal, _)) ↦
        let other : same compar key a ≡ false =
          ap (λ (x : ℕ). same compar key x) is ∙ differ j small in
        absurd (cc (other, equal))
  ]

module _ {G : Type 0} (q : Qemu G) (compar : MemoryManager G → ℕ → ℕ → ℕ) where
  -- Where the count can be read, and for a comparison that changes no memory, lfind returns the
  -- address of an element that is equal to the key, where none before it is, or 0 if no element is.
  pub lfind-First :
      (m : MemoryManager G) (key base nmemb_ptr size nmemb : ℕ)
      → load q m nmemb_ptr ≡ some nmemb
      → ((lfind q compar m key base nmemb_ptr size ≡ found 0)
          × Differ (compar m) key base size 0 nmemb)
        ⊎ ((a : ℕ) × (lfind q compar m key base nmemb_ptr size ≡ found a)
            × First (compar m) key base size 0 nmemb a)
  unfolding lfind
  lfind-First m key base nmemb_ptr size nmemb count =
      elim (first_same-First (compar m) key base size 0 nmemb) [
        | inl (e, differ) ↦ inl (rw (lfind, count, e) refl, differ)
        | inr (a, e, first) ↦ inr (a, rw (lfind, count, e) refl, first)
      ]

module _ {G : Type 0} (q : Qemu G) (laws : Debug q) (compar : MemoryManager G → ℕ → ℕ → ℕ) where
  -- A word that is saved elsewhere leaves what is read.
  read-save-Apart :
      (m : MemoryManager G) (a b n w : ℕ)
      → Sound q m
      → Writable q m a
      → a + 8 < u64_mod
      → b + n < u64_mod
      → Apart a 8 b n
      → read q (save q m a w) b n ≡ read q m b n
  unfolding little_endian
  read-save-Apart m a b n w sound able fa fb apart =
      rw (save-put q m a w sound able)
        (read-put-Apart q laws m a b n (little_endian 8 w) sound (able w) fa fb apart)

  -- While QEMU has a processor and its debug access keeps the bytes that it writes, and for a
  -- comparison that changes no memory, let no element be equal to the key. If the count and the key
  -- can be read, the count and the bytes behind the last element can be written and are apart, and
  -- no end and not the new count wraps, then lsearch returns the address behind the last element,
  -- where the key's bytes are read from then on, and the count is one more.
  pub lsearch-appends :
      (m : MemoryManager G) (key base nmemb_ptr nmemb : ℕ) (bytes : List ℕ)
      → Sound q m
      → load q m nmemb_ptr ≡ some nmemb
      → Writable q m nmemb_ptr
      → nmemb + 1 < u64_mod
      → nmemb_ptr + 8 < u64_mod
      → Differ (compar m) key base (length bytes) 0 nmemb
      → read q m key (length bytes) ≡ some bytes
      → element base (length bytes) nmemb + length bytes < u64_mod
      → Apart (element base (length bytes) nmemb) (length bytes) nmemb_ptr 8
      → (q.rw_write m.guest (element base (length bytes) nmemb) bytes).1 ≡ true
      → (m' : MemoryManager G) × (lsearch q compar m key base nmemb_ptr (length bytes)
          ≡ placed m' (element base (length bytes) nmemb))
        × (read q m' (element base (length bytes) nmemb) (length bytes) ≡ some bytes)
        × (load q m' nmemb_ptr ≡ some (nmemb + 1))
  unfolding lsearch append_key read_key
  lsearch-appends m key base nmemb_ptr nmemb bytes sound count able more fits differs given room
        apart done =
      let new = element base (length bytes) nmemb in
      let none_same = first_same-Differ (compar m) key base (length bytes) nmemb differs in
      let m1 = put q m new bytes in
      let sound1 = put-Sound q laws m new bytes sound in
      let able1 = put-Writable q laws m new nmemb_ptr bytes able in
      let written = write-put q m new bytes sound done in
      let small : (nmemb + 1) % 2 ^ 64 ≡ nmemb + 1 = omega arith in
      (
        save q m1 nmemb_ptr (nmemb + 1),
        rw (lsearch, count, none_same, append_key, read_key, given, written, small) refl,
        read-save-Apart m1 nmemb_ptr new (length bytes) (nmemb + 1) sound1 able1 fits room
              (elim apart [ inl before ↦ inr before | inr after ↦ inl after ])
            ∙ read-put q laws m new bytes sound done,
        load-save q laws m1 nmemb_ptr (nmemb + 1) sound1 able1 more,
      )
