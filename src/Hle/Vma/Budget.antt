-- ===== src/Hle/Vma/Budget.antt =====
-- The calls of the budget of guest mappings, and when a budget is valid.
use cross_shim.Base.{
  ℕ, ◌+◌, ◌-◌, ◌≤◌, ◌<◌, ◌≡◌, ◌≢◌, refl, ap, ◌∙◌, true, false, ◌||◌, Option, none, some, List, [],
  ◌∷◌, arith, ltb, leb, ◌==◌, if◌then◌else◌, Bool-cases, inl, inr,
}
use cross_shim.Base.Word.{u64_mod, add64, add64_lem}
use cross_shim.Container.Dict
use cross_shim.Container.Dict.{lookup, lookup-insert, lookup-erase}
use cross_shim.Container.Total.{
  total, value_or_zero, Ascending, insert-Ascending, erase-Ascending, total-insert, total-erase,
}
use cross_shim.Hle.Vma.{VmaState, guest_vma_limit, try_reserve_vmas, release_vmas}

pub record VmaValid (s : VmaState) : Type 0 where
  pub sorted : Ascending 0 s.reservations
  pub counted : s.count ≡ total s.reservations
  pub bounded : s.count ≤ guest_vma_limit

module _ (s : VmaState) (v : VmaValid s) where
  -- What is reserved under a key is part of the count.
  value-count : (k : ℕ) → value_or_zero (lookup k s.reservations) ≤ s.count
  value-count k = omega (arith, total-erase 0 k s.reservations v.sorted, v.counted)

  -- A request within the budget, with a key.
  grown :
      (k n : ℕ)
      → s.count + n ≤ guest_vma_limit
      → VmaValid (record s {
        count = s.count + n;
        reservations = Dict.insert k (value_or_zero (lookup k s.reservations) + n) s.reservations;
      })
  grown k n fits =
      let sum = value_or_zero (lookup k s.reservations) + n in
      record {
        sorted = insert-Ascending 0 k sum s.reservations v.sorted (omega arith);
        counted = omega (arith, total-insert 0 k sum s.reservations v.sorted, v.counted);
        bounded = fits;
      }

  -- Reserving keeps the budget, whether it succeeds or not, if the sum of the counts does not wrap.
  try_reserve-VmaValid :
      (k n : ℕ) → guest_vma_limit + n < u64_mod → VmaValid (try_reserve_vmas s k n).0
  unfolding try_reserve_vmas
  try_reserve-VmaValid k n small =
      let sum = add64_lem s.count n (omega (arith, v.bounded)) in
      let held =
        add64_lem (value_or_zero (lookup k s.reservations)) n
          (omega (arith, v.bounded, value-count k)) in
      rw (try_reserve_vmas, sum, held)
        elim (Bool-cases ((k == 0) || (n == 0))) [
          | inl nothing ↦ rw nothing v
          | inr e ↦ rw e (elim (Bool-cases (ltb guest_vma_limit (s.count + n))) [
            | inl spent ↦ rw spent v
            | inr fits ↦ rw fits (grown k n (ground arith))
          ])
        ]

  release-VmaValid : (k : ℕ) → VmaValid (release_vmas s k)
  unfolding release_vmas
  release-VmaValid k = elim (Bool-cases (k == 0)) [
    | inl null ↦ rw null v
    | inr e ↦ rw e (go (lookup k s.reservations) refl)
  ]
    where
      go :
          (o : Option ℕ)
          → lookup k s.reservations ≡ o
          → VmaValid (elim o [
            | none ↦ s
            | some n ↦ record s {
              count = if leb n s.count then s.count - n else 0;
              reservations = Dict.erase k s.reservations;
            }
          ])
      go none x = v
      go (some n) x =
          let sum = total-erase 0 k s.reservations v.sorted in
          let held : value_or_zero (lookup k s.reservations) ≡ n = rw x in
          record {
            sorted = erase-Ascending 0 k s.reservations v.sorted;
            counted = ground (arith, sum, held, v.counted);
            bounded = ground (arith, v.bounded);
          }

-- A call of the budget.
pub data VmaCall : Type 0 where
  reserves : ℕ → ℕ → VmaCall
  releases : ℕ → VmaCall

pub step : VmaState → VmaCall → VmaState
step s (reserves k n) = (try_reserve_vmas s k n).0
step s (releases k) = release_vmas s k

pub run : VmaState → List VmaCall → VmaState
run s [] = s
run s (c ∷ cs) = run (step s c) cs

-- No call asks for so many mappings that its sum with the limit is 2^64 or more.
abbrev pub AllSmall : List VmaCall → Type 0
AllSmall [] = Unit {0}
AllSmall (reserves k n ∷ cs) = (guest_vma_limit + n < u64_mod) × AllSmall cs
AllSmall (releases k ∷ cs) = AllSmall cs

-- From a valid budget, after any calls, in any order, of which none reserves 2^64 - 4096 mappings or
-- more at once, the count is the sum of the reservations and not above the limit.
pub run-VmaValid :
    (s : VmaState) (cs : List VmaCall) → AllSmall cs → VmaValid s → VmaValid (run s cs)
unfolding run step
run-VmaValid s [] small v = v
run-VmaValid s (reserves k n ∷ cs) (one, small) v =
    run-VmaValid (try_reserve_vmas s k n).0 cs small (try_reserve-VmaValid s v k n one)
run-VmaValid s (releases k ∷ cs) small v =
    run-VmaValid (release_vmas s k) cs small (release-VmaValid s v k)

try_reserve_new :
    (s : VmaState) (k n : ℕ)
    → k ≢ 0
    → 0 < n
    → s.count + n ≤ guest_vma_limit
    → lookup k s.reservations ≡ none
    → try_reserve_vmas s k n
      ≡ (record s { count = s.count + n; reservations = Dict.insert k n s.reservations }, true)
unfolding try_reserve_vmas
try_reserve_new s k n key pos fits new =
    let live : ((k == 0) || (n == 0)) ≡ false = ground (arith, key) in
    let whole = add64_lem s.count n (omega arith) in
    let room : ltb guest_vma_limit (s.count + n) ≡ false = ground arith in
    let sum : add64 (value_or_zero (lookup k s.reservations)) n ≡ n =
      ap (λ (o : Option ℕ). add64 (value_or_zero o) n) new
      ∙ add64_lem 0 n (omega arith)
      ∙ (omega arith) in
    rw (try_reserve_vmas, live, whole, room, sum)

release_some :
    (s : VmaState) (k n : ℕ)
    → k ≢ 0
    → lookup k s.reservations ≡ some n
    → n ≤ s.count
    → release_vmas s k
      ≡ record s { count = s.count - n; reservations = Dict.erase k s.reservations }
unfolding release_vmas
release_some s k n key e le =
    let live : (k == 0) ≡ false = ground (arith, key) in
    let enough : leb n s.count ≡ true = ground arith in rw (live, e, release_vmas, enough)

-- A reservation of at least one mapping under a new key other than 0 that the budget allows
-- succeeds, and releasing it restores the count and every reservation.
pub release-try_reserve :
    (s : VmaState) (k n : ℕ)
    → k ≢ 0
    → 0 < n
    → s.count + n ≤ guest_vma_limit
    → lookup k s.reservations ≡ none
    → let out = try_reserve_vmas s k n in
      (out.1 ≡ true)
      × ((release_vmas out.0 k).count ≡ s.count)
      × ((j : ℕ) → lookup j (release_vmas out.0 k).reservations ≡ lookup j s.reservations)
release-try_reserve s k n key pos fits new =
    let g = record s { count = s.count + n; reservations = Dict.insert k n s.reservations } in
    let here : lookup k g.reservations ≡ some n =
      ground (arith, lookup-insert k k n s.reservations) in
    rw (try_reserve_new s k n key pos fits new, release_some g k n key here (omega arith))
      (
        refl,
        omega arith,
        λ j. ground (
          arith,
          lookup-insert k j n s.reservations,
          lookup-erase k j (Dict.insert k n s.reservations),
          new,
        ),
      )
