-- ===== src/Sync/Cond.antt =====
-- The condition variables of src/thread_manager.cpp. A call is described up to `context_switch`; what
-- its function does after that call is a definition of its own, on the state that it finds then.
pub mod Keeping
pub mod Waking
use cross_shim.Base.{
  ℕ, ◌+◌, ◌*◌, ◌^◌, Bool, true, false, Option, none, some, List, [], ◌∷◌, ◌++◌, ◌==◌, if◌then◌else◌,
}
use cross_shim.Container.Dict
use cross_shim.Container.Dict.{lookup}
use cross_shim.Sync.{
  ThreadManager, ThreadContext, Outcome, returns, switches, sleeping, hle_base, update_current,
  block_current_thread, unblock_thread_internal, unblock_all, contains, finish,
}
use cross_shim.Sync.Mutex.{pthread_mutex_lock, pthread_mutex_unlock}

abbrev pub etimedout : ℕ
etimedout = 110

unfoldable pub put_cond : ThreadManager → ℕ → List ℕ → ThreadManager
put_cond s ptr queue = record s { condvars = Dict.insert ptr queue s.condvars }

unfoldable pub find_cond : ThreadManager → ℕ → List ℕ
find_cond s ptr = elim (lookup ptr s.condvars) [ none ↦ [] | some queue ↦ queue ]

unfoldable pub pthread_cond_init : ThreadManager → ℕ → ThreadManager × Outcome
unfolding put_cond
pthread_cond_init s ptr = (put_cond s ptr [], returns 0)

unfoldable pub pthread_cond_destroy : ThreadManager → ℕ → ThreadManager × Outcome
pthread_cond_destroy s ptr = (record s { condvars = Dict.erase ptr s.condvars }, returns 0)

-- The current thread goes to the end of the queue.
unfoldable pub join_cond : ThreadManager → ℕ → ThreadManager
unfolding put_cond find_cond
join_cond s ptr = put_cond s ptr (find_cond s ptr ++ s.current_thread_id ∷ [])

unfoldable pub pthread_cond_wait : ThreadManager → ℕ → ℕ → ThreadManager × Outcome
unfolding join_cond update_current block_current_thread
pthread_cond_wait s ptr mutex =
    let saved = update_current (join_cond s ptr) (λ t. record t {
      cond_wait_mutex = mutex;
      cond_wait_return_addr = s.lr;
      pc = hle_base + 0xFFFF4;
    }) in
    (block_current_thread (pthread_mutex_unlock saved mutex).0 ptr, switches)

-- The end of the resume function, by how the lock of the mutex ended.
unfoldable pub return_from_wait : ThreadManager × Outcome → ℕ → ThreadManager × Outcome
unfolding finish
return_from_wait (s, switches) return_addr = (s, switches)
return_from_wait (s, returns result) return_addr = finish s return_addr 0

-- `state` is the word that the guest's mutex holds.
unfoldable pub pthread_cond_wait_resume : ThreadManager → ℕ → ThreadManager × Outcome
unfolding return_from_wait
pthread_cond_wait_resume s state = elim (lookup s.current_thread_id s.threads) [
  | none ↦ (s, returns s.x0)
  | some t ↦
      let cleared = record t { cond_wait_mutex = 0; cond_wait_return_addr = 0 } in
      let s' = record s { threads = Dict.insert s.current_thread_id cleared s.threads } in
      return_from_wait (pthread_mutex_lock s' t.cond_wait_mutex state) t.cond_wait_return_addr
]

-- After `context_switch`, if the mutex was held: the thread that runs then gets the return address.
unfoldable pub cond_wait_resume_switched : ThreadManager → ℕ → ThreadManager
unfolding update_current
cond_wait_resume_switched s return_addr =
    update_current s (λ t. record t { mutex_wait_return_addr = return_addr })

-- The deadline in nanoseconds, without the overflow of a duration.
unfoldable pub pthread_cond_timedwait : ThreadManager → ℕ → ℕ → ℕ → ℕ → ThreadManager × Outcome
unfolding join_cond update_current
pthread_cond_timedwait s ptr mutex tv_sec tv_nsec =
    let timeout = tv_sec * 10 ^ 9 + tv_nsec in
    let unlocked = (pthread_mutex_unlock (join_cond s ptr) mutex).0 in
    (update_current unlocked (λ t. record t { state = sleeping; sleep_until = timeout }), switches)

-- `wait_queue.erase` of the first occurrence.
unfoldable pub erase_first : ℕ → List ℕ → List ℕ
erase_first t [] = []
erase_first t (u ∷ q) = let rest = erase_first t q in if u == t then q else u ∷ rest

-- After `context_switch`: a thread that is still in the queue has timed out.
unfoldable pub leave_cond : ThreadManager → ℕ → ThreadManager × Bool
unfolding put_cond contains erase_first
leave_cond s ptr = elim (lookup ptr s.condvars) [
  | none ↦ (s, false)
  | some queue ↦
      if contains s.current_thread_id queue
      then (put_cond s ptr (erase_first s.current_thread_id queue), true)
      else (s, false)
]

-- How the lock ends is not looked at.
unfoldable pub cond_timedwait_switched : ThreadManager → ℕ → ℕ → ℕ → ThreadManager × Outcome
unfolding leave_cond
cond_timedwait_switched s ptr mutex state =
    let (left, timed_out) = leave_cond s ptr in
    let (s', out) = pthread_mutex_lock left mutex state in
    (s', returns (if timed_out then etimedout else 0))

unfoldable pub signal_queue : ThreadManager → ℕ → List ℕ → ThreadManager
unfolding put_cond unblock_thread_internal
signal_queue s ptr [] = s
signal_queue s ptr (waiting_thread ∷ queue) =
    unblock_thread_internal (put_cond s ptr queue) waiting_thread

unfoldable pub pthread_cond_signal : ThreadManager → ℕ → ThreadManager × Outcome
unfolding signal_queue find_cond
pthread_cond_signal s ptr = (signal_queue s ptr (find_cond s ptr), returns 0)

unfoldable pub pthread_cond_broadcast : ThreadManager → ℕ → ThreadManager × Outcome
unfolding put_cond unblock_all
pthread_cond_broadcast s ptr = elim (lookup ptr s.condvars) [
  | none ↦ (s, returns 0)
  | some queue ↦ (put_cond (unblock_all s queue) ptr [], returns 0)
]
