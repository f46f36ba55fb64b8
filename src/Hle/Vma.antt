-- ===== src/Hle/Vma.antt =====
-- The budget of guest mappings of include/hle_mmap_state.h.
pub mod Budget
use cross_shim.Base.{
  ℕ, zero, ◌+◌, ◌-◌, ◌≤◌, ◌≡◌, refl, Bool, true, false, ◌||◌, Option, none, some, List, [], ◌∷◌,
  arith, ltb, leb, ◌==◌, if◌then◌else◌, ap, ◌∙◌, Option-cases, inl, inr, Bool-cases,
}
use cross_shim.Base.Word.{add64}
use cross_shim.Container.Dict
use cross_shim.Container.Dict.{lookup}
use cross_shim.Container.Total.{value_or_zero}

abbrev pub guest_vma_limit : ℕ
guest_vma_limit = 4096

pub record VmaState : Type 0 where
  pub count : ℕ
  pub reservations : List (ℕ × ℕ)

-- hle_try_reserve_vmas: `false` and no change if the budget is spent.
unfoldable pub try_reserve_vmas : VmaState → ℕ → ℕ → VmaState × Bool
try_reserve_vmas s key count =
    if (key == 0) || (count == 0)
    then (s, true)
    else if ltb guest_vma_limit (add64 s.count count)
    then (s, false)
    else (
      record s {
        count = add64 s.count count;
        reservations =
            Dict.insert key (add64 (value_or_zero (lookup key s.reservations)) count)
              s.reservations;
      },
      true,
    )

-- hle_release_vmas
unfoldable pub release_vmas : VmaState → ℕ → VmaState
release_vmas s key = if key == 0 then s else elim (lookup key s.reservations) [
  | none ↦ s
  | some n ↦ record s {
    count = if leb n s.count then s.count - n else 0;
    reservations = Dict.erase key s.reservations;
  }
]
