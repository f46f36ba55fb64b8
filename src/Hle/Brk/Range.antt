-- ===== src/Hle/Brk/Range.antt =====
-- brk and sbrk compute the program break as a signed 64-bit sum.
use cross_shim.Base.{
  ℕ, ◌+◌, ◌-◌, ◌^◌, ◌≤◌, ◌<◌, ◌≡◌, arith, ◌⊎◌, inl, inr, Bool-cases, leb, ltb, ◌==◌, ◌||◌,
}
use cross_shim.Base.Word.{u64_mod, add64}
use cross_shim.Hle.Brk.{BrkState, intptr_max, minus_one, enomem, brk_initialize, brk, sbrk}

-- The break that a call starts from is a positive intptr_t.
abbrev pub InRange : ℕ → BrkState → Type 0
InRange heap_base s = (0 < heap_base) × (heap_base ≤ intptr_max) × (s.current_brk ≤ intptr_max)

abbrev pub start : ℕ → BrkState → ℕ
start heap_base s = (brk_initialize s heap_base).current_brk

start_range : (b : ℕ) (s : BrkState) → InRange b s → (0 < start b s) × (start b s ≤ intptr_max)
unfolding brk_initialize
start_range b s r = ground arith

-- From a break that is an intptr_t, for an increment that is not negative, `sbrk` returns the old
-- break and moves it by the increment if the sum is an intptr_t; if not it returns -1 with ENOMEM
-- and the break stays.
pub sbrk_grow :
    (b inc : ℕ) (s : BrkState)
    → InRange b s
    → inc ≤ intptr_max
    → let r = sbrk b s inc in
      ((start b s + inc ≤ intptr_max)
        × (r.x0 ≡ start b s)
        × (r.state.current_brk ≡ start b s + inc)
        × (r.errno ≡ 0))
      ⊎ ((intptr_max < start b s + inc)
          × (r.x0 ≡ minus_one)
          × (r.state.current_brk ≡ start b s)
          × (r.errno ≡ enomem))
unfolding sbrk add64
sbrk_grow b inc s range h =
    let c = start_range b s range in
    elim (Bool-cases (leb (start b s + inc) intptr_max)) [
      | inl fits ↦ inl (ground arith, ground (arith, c), ground (arith, c), ground (arith, c))
      | inr over ↦ inr (ground arith, ground (arith, c), ground (arith, c), ground (arith, c))
    ]

-- From a break that is an intptr_t, for a negative increment `- dec`, given as a word, `sbrk`
-- returns the old break and moves it down if that leaves it at 0 or above; if not it returns -1
-- with ENOMEM and the break stays.
sbrk_shrink :
    (b dec : ℕ) (s : BrkState)
    → InRange b s
    → 0 < dec
    → dec ≤ 2 ^ 63
    → let r = sbrk b s (u64_mod - dec) in
      ((dec ≤ start b s)
        × (r.x0 ≡ start b s)
        × (r.state.current_brk ≡ start b s - dec)
        × (r.errno ≡ 0))
      ⊎ ((start b s < dec)
          × (r.x0 ≡ minus_one)
          × (r.state.current_brk ≡ start b s)
          × (r.errno ≡ enomem))
unfolding sbrk add64
sbrk_shrink b dec s range pos h =
    let c = start_range b s range in
    elim (Bool-cases (leb dec (start b s))) [
      | inl fits ↦ inl (ground arith, ground (arith, c), ground (arith, c), ground (arith, c))
      | inr over ↦ inr (ground arith, ground (arith, c), ground (arith, c), ground (arith, c))
    ]

-- From a break that is an intptr_t, `brk` accepts exactly the addresses from 1 to the greatest
-- intptr_t; then the break is that address, which the next `sbrk(0)` returns. It refuses the
-- others with ENOMEM, and the break stays.
pub sbrk-brk :
    (b addr : ℕ) (s : BrkState)
    → InRange b s
    → let r = brk b s addr in
      ((0 < addr) × (addr ≤ intptr_max) × (r.x0 ≡ 0) × ((sbrk b r.state 0).x0 ≡ addr))
      ⊎ (((addr ≡ 0) ⊎ (intptr_max < addr))
          × (r.x0 ≡ minus_one)
          × (r.errno ≡ enomem)
          × ((sbrk b r.state 0).x0 ≡ start b s))
unfolding brk sbrk brk_initialize
sbrk-brk b addr s range = elim (Bool-cases ((addr == 0) || ltb intptr_max addr)) [
  | inl bad ↦ inr (ground arith, ground arith, ground arith, ground arith)
  | inr ok ↦ inl (ground arith, ground arith, ground arith, ground arith)
]
