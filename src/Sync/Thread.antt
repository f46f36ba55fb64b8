-- ===== src/Sync/Thread.antt =====
-- The threads of src/thread_manager.cpp: joining, detaching, ending, sleeping, and waiting on a futex.
-- A call is described up to `context_switch`.
pub mod Join
use cross_shim.Base.{
  ℕ, ◌+◌, ◌*◌, Bool, true, false, ◌||◌, not, Option, none, some, List, [], ◌∷◌, ◌++◌, ◌==◌,
  if◌then◌else◌,
}
use cross_shim.Container.Dict
use cross_shim.Container.Dict.{lookup}
use cross_shim.Sync.{
  ThreadManager, ThreadContext, Outcome, returns, switches, runnable, blocked, sleeping, terminated,
  einval, hle_base, is_blocked, update_current, block_current_thread, unblock_thread_internal,
  unblock_all, finish,
}
use cross_shim.Sync.Scheduler.{is_terminated}

abbrev pub esrch : ℕ
esrch = 3

-- The current thread waits for the end of another; X1 holds the guest's pointer for the value.
unfoldable pub wait_to_join : ThreadManager → ℕ → ThreadContext → ℕ → ThreadManager
unfolding update_current block_current_thread
wait_to_join s thread_id target x1 =
    let queued = record target {
      join_wait_queue = target.join_wait_queue ++ s.current_thread_id ∷ [];
    } in
    let s' = record s { threads = Dict.insert thread_id queued s.threads } in
    let saved = update_current s' (λ t. record t {
      join_target_thread = thread_id;
      join_retval_ptr = x1;
      join_return_addr = s.lr;
      pc = hle_base + 0xFFFF8;
    }) in
    block_current_thread saved thread_id

-- The last component is the value that is stored through `retval`.
unfoldable pub pthread_join : ThreadManager → ℕ → ℕ → ThreadManager × Outcome × Option ℕ
unfolding wait_to_join is_terminated
pthread_join s thread_id x1 = elim (lookup thread_id s.threads) [
  | none ↦ (s, returns esrch, none)
  | some target ↦
      if target.detached
      then (s, returns einval, none)
      else if is_terminated target.state
      then (
        record s { threads = Dict.erase thread_id s.threads },
        returns 0,
        some target.return_value,
      )
      else (wait_to_join s thread_id target x1, switches, none)
]

-- The value of the thread that has ended, and the table without it.
unfoldable pub collect :
    ℕ → Option ThreadContext → List (ℕ × ThreadContext) → ℕ × List (ℕ × ThreadContext)
unfolding is_terminated
collect thread_id none threads = (0, threads)
collect thread_id (some target) threads =
    if is_terminated target.state
    then (target.return_value, Dict.erase thread_id threads)
    else (0, threads)

-- The last component is the 64-bit word that is written to the guest's memory, with its address.
unfoldable pub pthread_join_resume : ThreadManager → ThreadManager × Outcome × Option (ℕ × ℕ)
unfolding collect finish
pthread_join_resume s = elim (lookup s.current_thread_id s.threads) [
  | none ↦ (s, returns s.x0, none)
  | some t ↦
      let cleared = record t {
        join_target_thread = 0;
        join_retval_ptr = 0;
        join_return_addr = 0;
      } in
      let threads = Dict.insert s.current_thread_id cleared s.threads in
      let (retval, left) =
        collect t.join_target_thread (lookup t.join_target_thread threads) threads in
      let (s', out) = finish (record s { threads = left }) t.join_return_addr 0 in
      (s', out, if t.join_retval_ptr == 0 then none else some (t.join_retval_ptr, retval))
]

unfoldable pub pthread_detach : ThreadManager → ℕ → ThreadManager × Outcome
unfolding is_terminated
pthread_detach s thread_id = elim (lookup thread_id s.threads) [
  | none ↦ (s, returns esrch)
  | some t ↦
      if is_terminated t.state
      then (record s { threads = Dict.erase thread_id s.threads }, returns 0)
      else (
        record s { threads = Dict.insert thread_id (record t { detached = true }) s.threads },
        returns 0,
      )
]

abbrev pub pthread_self : ThreadManager → ℕ
pthread_self s = s.current_thread_id

-- The threads that wait for the end of the current one are woken.
unfoldable pub pthread_exit : ThreadManager → ℕ → ThreadManager × Outcome
unfolding unblock_all
pthread_exit s retval = elim (lookup s.current_thread_id s.threads) [
  | none ↦ (s, switches)
  | some t ↦
      let ended = record t { return_value = retval; state = terminated; join_wait_queue = [] } in
      let s' = record s { threads = Dict.insert s.current_thread_id ended s.threads } in
      (unblock_all s' t.join_wait_queue, switches)
]

unfoldable pub block_on_futex : ThreadManager → ℕ → ThreadManager × Outcome
unfolding update_current
block_on_futex s futex_addr = (
  update_current s (λ t. record t {
    state = blocked;
    blocked_on_resource = futex_addr;
    futex_wait_addr = futex_addr;
    futex_wait_return_addr = s.lr;
  }),
  switches,
)

unfoldable pub unblock_from_futex : ThreadManager → ℕ → ThreadManager
unfolding is_blocked
unblock_from_futex s thread_id = elim (lookup thread_id s.threads) [
  | none ↦ s
  | some t ↦
      if is_blocked t.state
      then record s {
        threads =
            Dict.insert thread_id
              (record t {
                futex_wait_addr = 0;
                futex_wait_return_addr = 0;
                blocked_on_resource = 0;
                state = runnable;
              })
              s.threads;
        runnable_queue = s.runnable_queue ++ thread_id ∷ [];
      }
      else s
]

-- The time of the host is in nanoseconds.
unfoldable pub sleep_current_thread : ThreadManager → ℕ → ℕ → ThreadManager
unfolding update_current
sleep_current_thread s now microseconds =
    update_current s (λ t. record t { state = sleeping; sleep_until = now + microseconds * 1000 })
