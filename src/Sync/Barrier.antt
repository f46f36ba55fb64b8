-- ===== src/Sync/Barrier.antt =====
-- The barriers of src/thread_manager.cpp.
pub mod Rounds
use cross_shim.Base.{
  ℕ, ◌+◌, ◌-◌, ◌%◌, ◌^◌, Bool, true, false, Option, none, some, List, [], ◌∷◌, ◌++◌, ltb, leb, ◌==◌,
  if◌then◌else◌,
}
use cross_shim.Container.Dict
use cross_shim.Container.Dict.{lookup}
use cross_shim.Sync.{
  ThreadManager, ThreadContext, EmulatedBarrier, Outcome, returns, switches, einval, ebusy,
  hle_base, update_current, block_current_thread, unblock_all, finish,
}

abbrev pub u32_mod : ℕ
u32_mod = 2 ^ 32

-- The result -1 as a 32-bit word.
abbrev pub serial_thread : ℕ
serial_thread = u32_mod - 1

unfoldable pub put_barrier : ThreadManager → ℕ → EmulatedBarrier → ThreadManager
put_barrier s ptr b = record s { barriers = Dict.insert ptr b s.barriers }

abbrev pub new_barrier : ℕ → EmulatedBarrier
new_barrier count = record { count = count; waiting = 0; generation = 0; wait_queue = [] }

unfoldable pub pthread_barrier_init : ThreadManager → ℕ → ℕ → ThreadManager × Outcome
unfolding put_barrier
pthread_barrier_init s ptr count =
    if count == 0 then (s, returns einval) else (put_barrier s ptr (new_barrier count), returns 0)

unfoldable pub pthread_barrier_destroy : ThreadManager → ℕ → ThreadManager × Outcome
pthread_barrier_destroy s ptr = elim (lookup ptr s.barriers) [
  | none ↦ (s, returns einval)
  | some b ↦
      if ltb 0 b.waiting
      then (s, returns ebusy)
      else (record s { barriers = Dict.erase ptr s.barriers }, returns 0)
]

unfoldable pub find_barrier : ThreadManager → ℕ → EmulatedBarrier
find_barrier s ptr = elim (lookup ptr s.barriers) [ none ↦ new_barrier 1 | some b ↦ b ]

-- The last thread arrives: everyone is woken.
unfoldable pub release_barrier : ThreadManager → ℕ → EmulatedBarrier → ThreadManager
unfolding put_barrier unblock_all
release_barrier s ptr b =
    let generation = (b.generation + 1) % u32_mod in
    put_barrier (unblock_all s b.wait_queue) ptr
      (record b { waiting = 0; generation = generation; wait_queue = [] })

-- Another thread arrives, and waits.
unfoldable pub wait_at_barrier : ThreadManager → ℕ → EmulatedBarrier → ThreadManager
unfolding put_barrier update_current block_current_thread
wait_at_barrier s ptr b =
    let saved = update_current s (λ t. record t {
      barrier_wait_ptr = ptr;
      barrier_wait_return_addr = s.lr;
      pc = hle_base + 0xFFFDC;
    }) in
    let queued = record b { wait_queue = b.wait_queue ++ s.current_thread_id ∷ [] } in
    block_current_thread (put_barrier saved ptr queued) ptr

unfoldable pub pthread_barrier_wait : ThreadManager → ℕ → ThreadManager × Outcome
unfolding find_barrier release_barrier wait_at_barrier
pthread_barrier_wait s ptr =
    let found = find_barrier s ptr in
    let b = record found { waiting = (found.waiting + 1) % u32_mod } in
    if leb b.count b.waiting
    then (release_barrier s ptr b, returns serial_thread)
    else (wait_at_barrier s ptr b, switches)

unfoldable pub pthread_barrier_wait_resume : ThreadManager → ThreadManager × Outcome
unfolding finish
pthread_barrier_wait_resume s = elim (lookup s.current_thread_id s.threads) [
  | none ↦ (s, returns s.x0)
  | some t ↦
      let cleared = record t { barrier_wait_ptr = 0; barrier_wait_return_addr = 0 } in
      let s' = record s { threads = Dict.insert s.current_thread_id cleared s.threads } in
      finish s' t.barrier_wait_return_addr 0
]
