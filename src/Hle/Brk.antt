-- ===== src/Hle/Brk.antt =====
-- brk and sbrk of src/hle/hle_memory.cpp, over the state of include/hle_brk_state.h.
pub mod Range
use cross_shim.Base.{
  ℕ, ◌+◌, ◌-◌, ◌^◌, ◌≤◌, ◌<◌, ◌≡◌, refl, Bool, true, false, ◌||◌, arith, ltb, leb, ◌==◌,
  if◌then◌else◌,
}
use cross_shim.Base.Word.{u64_mod, add64}

pub record BrkState : Type 0 where
  pub initial_brk : ℕ
  pub current_brk : ℕ

-- What a handler returns: the state, X0 and the error number that it stores, 0 if it stores none.
pub record Reply : Type 0 where
  pub state : BrkState
  pub x0 : ℕ
  pub errno : ℕ

abbrev pub enomem : ℕ
enomem = 12

abbrev pub minus_one : ℕ
minus_one = u64_mod - 1

-- The greatest intptr_t.
abbrev pub intptr_max : ℕ
intptr_max = 2 ^ 63 - 1

unfoldable pub brk_initialize : BrkState → ℕ → BrkState
brk_initialize s brk = record {
  initial_brk = if s.initial_brk == 0 then brk else s.initial_brk;
  current_brk = if s.current_brk == 0 then brk else s.current_brk;
}

unfoldable pub brk : ℕ → BrkState → ℕ → Reply
brk heap_base s addr =
    let s' = brk_initialize s heap_base in
    if (addr == 0) || ltb intptr_max addr
    then record { state = s'; x0 = minus_one; errno = enomem }
    else record { state = record s' { current_brk = addr }; x0 = 0; errno = 0 }

-- A word read as an int64_t is negative.
abbrev negative : ℕ → Bool
negative w = leb (2 ^ 63) w

-- `__builtin_add_overflow` on two words read as intptr_t: the sum of numbers of one sign leaves the
-- range exactly if its word has the other sign.
add_overflows : ℕ → ℕ → Bool
add_overflows a b =
    if negative a
    then (if negative b then (if negative (add64 a b) then false else true) else false)
    else (if negative b then false else negative (add64 a b))

unfoldable pub sbrk : ℕ → BrkState → ℕ → Reply
unfolding add_overflows
sbrk heap_base s increment =
    let s' = brk_initialize s heap_base in
    let old_brk = s'.current_brk in
    let new_brk = add64 old_brk increment in
    if increment == 0
    then record { state = s'; x0 = old_brk; errno = 0 }
    else if add_overflows old_brk increment || negative new_brk
    then record { state = s'; x0 = minus_one; errno = enomem }
    else record { state = record s' { current_brk = new_brk }; x0 = old_brk; errno = 0 }
