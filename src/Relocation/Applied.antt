-- ===== src/Relocation/Applied.antt =====
-- What the words of a module hold after its relocations.
use cross_shim.Base.{
  ℕ, ◌+◌, ◌<◌, ◌≤◌, ◌≡◌, refl, Bool, true, false, Option, List, [], ◌∷◌, if◌then◌else◌, arith, ap,
  ◌==◌, ◌&&◌, ◌∙◌, sym, subst, Bool-cases, inl, inr, ◌⊎◌,
}
use cross_shim.Base.Word.{u64_mod}
use cross_shim.Memory.{MemoryManager, read}
use cross_shim.Memory.Host.{Qemu}
use cross_shim.Memory.ReadWrite.{Apart, RegionsValid, NoGuest}
use cross_shim.Relocation.{
  Relocation, SymbolResolver, RelocationHandler, add_unresolved, write_word, apply_symbol,
  apply_relative, process_relocation, count, process_all, process_relocations,
}
use cross_shim.Relocation.Single.{writes, place, asked, relocated, Kept, process-Kept, process-read}

flip : (a b : ℕ) → Apart a 8 b 8 → Apart b 8 a 8
flip a b (inl e) = inr e
flip a b (inr e) = inl e

-- The words of a list of relocations end inside the address space, and no two overlap.
abbrev pub AllSeparate : ℕ → Relocation → List Relocation → Type 0
AllSeparate base r [] = Unit {0}
AllSeparate base r (t ∷ rs) = Apart (place base r) 8 (place base t) 8 × AllSeparate base r rs

abbrev pub Separate : ℕ → List Relocation → Type 0
Separate base [] = Unit {0}
Separate base (r ∷ rs) = (place base r + 8 < u64_mod) × AllSeparate base r rs × Separate base rs

module _ {G : Type 0} (q : Qemu G) (resolver : SymbolResolver) (base : ℕ) where
  -- Every relocation of the list that writes has left, in one memory, what it asks for by another.
  abbrev pub Applied : MemoryManager G → MemoryManager G → List Relocation → Type 0
  Applied before after [] = Unit {0}
  Applied before after (r ∷ rs) =
      ((writes r ≡ false) ⊎ (read q after (place base r) 8 ≡ relocated q resolver base before r))
      × Applied before after rs

  abbrev step : RelocationHandler G → Relocation → RelocationHandler G
  step h r = count (process_relocation q h resolver base r)

  counted-memory : (out : RelocationHandler G × Bool) → (count out).memory ≡ out.0.memory
  unfolding count
  counted-memory (h, true) = refl
  counted-memory (h, false) = refl

  step-Kept :
      (h : RelocationHandler G) (r : Relocation)
      → NoGuest q h.memory
      → RegionsValid h.memory.regions
      → place base r + 8 < u64_mod
      → Kept q resolver base h.memory (place base r) (step h r).memory
  step-Kept h r off valid ends =
      subst (λ (m : MemoryManager G). Kept q resolver base h.memory (place base r) m)
        (sym (counted-memory (process_relocation q h resolver base r)))
        (process-Kept q resolver base h off valid r ends)

  -- Words apart from those of a list stay as they are.
  process_all-Kept :
      (h : RelocationHandler G) (rs : List Relocation) (r : Relocation)
      → NoGuest q h.memory
      → RegionsValid h.memory.regions
      → place base r + 8 < u64_mod
      → AllSeparate base r rs
      → Separate base rs
      → read q (process_all q h resolver base rs).memory (place base r) 8
        ≡ read q h.memory (place base r) 8
  unfolding process_all
  process_all-Kept h [] r off valid ends apart sep = refl
  process_all-Kept h (t ∷ rs) r off valid ends (apart, more) (here, later, sep) =
      let (off', same, kept) = step-Kept h t off valid here in
      process_all-Kept (step h t) rs r off' (subst RegionsValid (sym same) valid) ends more sep
      ∙ kept (place base r) ends (flip (place base r) (place base t) apart)

  -- A relocation asks for the same by two memories that have the same word in its place.
  relocated-same :
      (m n : MemoryManager G) (r : Relocation)
      → read q m (place base r) 8 ≡ read q n (place base r) 8
      → relocated q resolver base m r ≡ relocated q resolver base n r
  relocated-same m n r e = ap (λ (o : Option (List ℕ)). asked q resolver base o r) e

  process-failed_count :
      (h : RelocationHandler G) (r : Relocation)
      → (process_relocation q h resolver base r).0.failed_count ≡ h.failed_count
  unfolding process_relocation apply_relative apply_symbol add_unresolved write_word
  process-failed_count h r = ground arith

  counted-failed_count :
      (out : RelocationHandler G × Bool)
      → (count out).failed_count ≡ (if out.1 then out.0.failed_count else out.0.failed_count + 1)
  unfolding count
  counted-failed_count (h, true) = refl
  counted-failed_count (h, false) = refl

  step-failed_count :
      (h : RelocationHandler G) (r : Relocation)
      → (step h r).failed_count ≡ (
          if (process_relocation q h resolver base r).1 then h.failed_count else h.failed_count + 1)
  step-failed_count h r =
      let out = process_relocation q h resolver base r in
      counted-failed_count out
      ∙ ap (λ (n : ℕ). if out.1 then n else n + 1) (process-failed_count h r)

  -- The failures are not forgotten.
  process_all-failed_count :
      (h : RelocationHandler G) (rs : List Relocation)
      → h.failed_count ≤ (process_all q h resolver base rs).failed_count
  unfolding process_all
  process_all-failed_count h [] = omega arith
  process_all-failed_count h (r ∷ rs) =
      let more = process_all-failed_count (step h r) rs in
      ground (arith, step-failed_count h r, more)

  -- What was applied by the memory after a relocation was by the one before it.
  Applied-before :
      (m m' after : MemoryManager G) (r : Relocation) (rs : List Relocation)
      → Kept q resolver base m (place base r) m'
      → AllSeparate base r rs
      → Separate base rs
      → Applied m' after rs
      → Applied m after rs
  Applied-before m m' after r [] kept apart sep done = tt
  Applied-before m m' after r (t ∷ rs) kept (here, apart) (ends, later, sep) (done, more) =
      let same = relocated-same m' m t (kept.2 (place base t) ends here) in
      (turn done same, Applied-before m m' after r rs kept apart sep more)
    where
      turn :
          {x y z : Option (List ℕ)}
          → (writes t ≡ false) ⊎ (x ≡ y)
          → y ≡ z
          → (writes t ≡ false) ⊎ (x ≡ z)
      turn (inl w) e = inl w
      turn (inr d) e = inr (d ∙ e)

  step-read :
      (h : RelocationHandler G) (r : Relocation)
      → NoGuest q h.memory
      → RegionsValid h.memory.regions
      → (process_relocation q h resolver base r).1 ≡ true
      → (writes r ≡ false)
        ⊎ (read q (step h r).memory (place base r) 8 ≡ relocated q resolver base h.memory r)
  step-read h r off valid ok = elim (Bool-cases (writes r)) [
    | inr w ↦ inl w
    | inl w ↦ inr (
        ap (λ (m : MemoryManager G). read q m (place base r) 8)
          (counted-memory (process_relocation q h resolver base r))
        ∙ process-read q resolver base h off valid r w ok)
  ]

  -- If no relocation of a list fails, all are applied.
  process_all-Applied :
      (h : RelocationHandler G) (rs : List Relocation)
      → NoGuest q h.memory
      → RegionsValid h.memory.regions
      → Separate base rs
      → (process_all q h resolver base rs).failed_count ≡ h.failed_count
      → Applied h.memory (process_all q h resolver base rs).memory rs
  unfolding process_all
  process_all-Applied h [] off valid sep fine = tt
  process_all-Applied h (r ∷ rs) off valid (here, apart, sep) fine =
      let (off', same, kept) = step-Kept h r off valid here in
      let valid' = subst RegionsValid (sym same) valid in
      let after = (process_all q (step h r) resolver base rs).memory in
      let counted = step-failed_count h r in
      let more = process_all-failed_count (step h r) rs in
      let ok : (process_relocation q h resolver base r).1 ≡ true =
        ground (arith, counted, more, fine) in
      let still : (step h r).failed_count ≡ h.failed_count = ground (arith, counted, ok) in
      let rest = process_all-Applied (step h r) rs off' valid' sep (fine ∙ sym still) in
      (
        later (process_all-Kept (step h r) rs r off' valid' here apart sep)
            (step-read h r off valid ok),
        Applied-before h.memory (step h r).memory after r rs (off', same, kept) apart sep rest,
      )
    where
      later :
          {x y z : Option (List ℕ)}
          → x ≡ y
          → (writes r ≡ false) ⊎ (y ≡ z)
          → (writes r ≡ false) ⊎ (x ≡ z)
      later e (inl w) = inl w
      later e (inr d) = inr (e ∙ d)

  -- If process_relocations returns true, on memory that no processor of QEMU serves yet and whose
  -- regions are valid, and the words of the module's relocations end inside the address space and do
  -- not overlap, then each of these words holds what its relocation asks for by the memory before: the
  -- base and the addend, which for 0 is the word in place, for RELATIVE and IRELATIVE, and the
  -- address of the symbol and the addend for ABS64, GLOB_DAT and JUMP_SLOT.
  pub process_relocations-Applied :
      (h : RelocationHandler G) (rs : List Relocation)
      → NoGuest q h.memory
      → RegionsValid h.memory.regions
      → Separate base rs
      → (process_relocations q h resolver base rs).1 ≡ true
      → Applied h.memory (process_relocations q h resolver base rs).0.memory rs
  unfolding process_relocations
  process_relocations-Applied h rs off valid sep ok =
      let more = process_all-failed_count h rs in
      let same : (process_all q h resolver base rs).failed_count ≡ h.failed_count =
        ground (arith, more, ok) in
      process_all-Applied h rs off valid sep same

  -- How many of the relocations fail, each processed in the state that the ones before it left.
  unfoldable pub failures : RelocationHandler G → List Relocation → ℕ
  failures h [] = 0
  failures h (r ∷ rs) =
      let rest = failures (step h r) rs in
      if (process_relocation q h resolver base r).1 then rest else rest + 1

  process_all-failures :
      (h : RelocationHandler G) (rs : List Relocation)
      → (process_all q h resolver base rs).failed_count ≡ h.failed_count + failures h rs
  unfolding process_all failures
  process_all-failures h [] = omega arith
  process_all-failures h (r ∷ rs) =
      let rest = process_all-failures (step h r) rs in
      let counted = step-failed_count h r in
      elim (Bool-cases (process_relocation q h resolver base r).1) [
        | inl ok ↦ rw (failures, ok) (ground (arith, rest, counted, ok))
        | inr bad ↦ rw (failures, bad) (ground (arith, rest, counted, bad))
      ]

  -- process_relocations adds the number of relocations of the module that fail to the count of the
  -- handler, and returns true exactly if that sum is 0: if none of them fails and none of any module
  -- before had.
  pub process_relocations-failures :
      (h : RelocationHandler G) (rs : List Relocation)
      → let out = process_relocations q h resolver base rs in
        (out.0.failed_count ≡ h.failed_count + failures h rs)
        × (out.1 ≡ (h.failed_count == 0) && (failures h rs == 0))
  unfolding process_relocations
  process_relocations-failures h rs = let e = process_all-failures h rs in (e, ground (arith, e))
