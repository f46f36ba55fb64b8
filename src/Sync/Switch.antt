-- ===== src/Sync/Switch.antt =====
-- `context_switch` of src/thread_manager.cpp. The counters of the switches and the times of the last
-- ones are left out: nothing but the diagnostics reads them.
pub mod Registers
pub mod Parking
pub mod Resume
pub mod Waiting
pub mod Running
use cross_shim.Base.{
  ℕ, zero, suc, ◌+◌, ◌==◌, Bool, true, false, ◌&&◌, ◌||◌, not, Option, none, some, List, [], ◌∷◌,
  ◌++◌, if◌then◌else◌,
}
use cross_shim.Container.Dict
use cross_shim.Container.Dict.{lookup}
use cross_shim.Sync.{
  ThreadManager, ThreadContext, ThreadState, created, runnable, running, blocked, sleeping, io_wait,
  terminated,
}
use cross_shim.Sync.Scheduler.{
  SwitchReason, blocking_operation, periodic_preemption, emergency_preemption, thread_exit,
  thread_yield, Host, is_runnable, is_running, is_terminated, select_next_thread, save_thread_state,
  restore_thread_state, has_resume_pc,
}

unfoldable pub is_voluntary : SwitchReason → Bool
is_voluntary blocking_operation = true
is_voluntary thread_exit = true
is_voluntary thread_yield = true
is_voluntary periodic_preemption = false
is_voluntary emergency_preemption = false

-- The thread leaves the processor: its registers are saved, and if it ran it becomes runnable.
unfoldable pub park : ThreadManager → ThreadContext → ThreadManager
unfolding is_running has_resume_pc save_thread_state
park s c =
    let ready = record c { block_next_switch = false } in
    let saved = save_thread_state s ready in
    if is_running c.state
    then record s {
      threads = Dict.insert s.current_thread_id (record saved { state = runnable }) s.threads;
      runnable_queue = s.runnable_queue ++ s.current_thread_id ∷ [];
    }
    else record s {
      threads =
          Dict.insert s.current_thread_id
            (if has_resume_pc ready c.state then record saved { pc = c.pc } else saved) s.threads;
    }

unfoldable pub is_waiting : ThreadState → Bool
is_waiting blocked = true
is_waiting sleeping = true
is_waiting io_wait = true
is_waiting created = false
is_waiting runnable = false
is_waiting running = false
is_waiting terminated = false

unfoldable pub some_waiting : List (ℕ × ThreadContext) → Bool
unfolding is_waiting
some_waiting [] = false
some_waiting ((t, c) ∷ others) = is_waiting c.state || some_waiting others

unfoldable pub all_terminated : List (ℕ × ThreadContext) → Bool
unfolding is_terminated
all_terminated [] = true
all_terminated ((t, c) ∷ others) = is_terminated c.state && all_terminated others

-- Looks at the host are numbered; between two of them the code sleeps. If nobody was found, but a
-- thread waits, there is a second look.
unfoldable pub look_again : (ℕ → Host) → Option ℕ × ThreadManager → Option ℕ × ThreadManager
unfolding select_next_thread some_waiting
look_again hosts (some t, s) = (some t, s)
look_again hosts (none, s) =
    if some_waiting s.threads then select_next_thread (hosts 1) s else (none, s)

unfoldable pub find_next_thread : (ℕ → Host) → ThreadManager → Option ℕ × ThreadManager
unfolding select_next_thread look_again
find_next_thread hosts s = look_again hosts (select_next_thread (hosts 0) s)

unfoldable pub run_thread : ThreadManager → ℕ → ThreadManager
unfolding restore_thread_state
run_thread s t = elim (lookup t s.threads) [
  | none ↦ s
  | some c ↦
      restore_thread_state (record s { current_thread_id = t }) (record c { state = running })
]

-- After a thread has ended: `n` more looks, and then the emulator stops.
unfoldable pub retry_select : (ℕ → Host) → ℕ → ThreadManager → ThreadManager
unfolding select_next_thread run_thread
retry_select hosts zero s = record s { pc = 0 }
retry_select hosts (suc n) s =
    let (next, s') = select_next_thread (hosts (2 + n)) s in
    let rest = retry_select hosts n s' in elim next [ none ↦ rest | some t ↦ run_thread s' t ]

-- No thread can run.
unfoldable pub stay : (ℕ → Host) → ThreadManager → ThreadContext → ThreadManager
unfolding is_terminated is_runnable all_terminated retry_select
stay hosts s c =
    if is_terminated c.state
    then (if all_terminated s.threads then record s { pc = 0 } else retry_select hosts 10 s)
    else if is_runnable c.state
    then record s {
      threads = Dict.insert s.current_thread_id (record c { state = running }) s.threads;
    }
    else s

unfoldable pub enter : (ℕ → Host) → Option ℕ × ThreadManager → ThreadManager
unfolding run_thread stay
enter hosts (some t, s) = run_thread s t
enter hosts (none, s) = elim (lookup s.current_thread_id s.threads) [
  | none ↦ s
  | some c ↦ stay hosts s c
]

unfoldable pub switch_thread : (ℕ → Host) → ThreadManager → ThreadManager
unfolding find_next_thread enter
switch_thread hosts s = enter hosts (find_next_thread hosts s)

unfoldable pub context_switch : (ℕ → Host) → ThreadManager → SwitchReason → ThreadManager
unfolding is_voluntary park switch_thread
context_switch hosts s reason = elim (lookup s.current_thread_id s.threads) [
  | none ↦ s
  | some c ↦
      if c.block_next_switch && not (is_voluntary reason) then s else switch_thread hosts (park s c)
]
