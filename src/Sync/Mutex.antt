-- ===== src/Sync/Mutex.antt =====
-- The mutexes of src/thread_manager.cpp. A call is described up to `context_switch`, which hands the
-- processor to another thread.
use cross_shim.Base.{
  ℕ, ◌+◌, ◌-◌, ◌/◌, ◌%◌, ◌^◌, true, false, ◌&&◌, ◌||◌, not, none, some, List, [], ◌∷◌, ltb, ◌==◌,
  if◌then◌else◌,
}
use cross_shim.Container.Dict
use cross_shim.Container.Dict.{lookup}
use cross_shim.Sync.{
  ThreadManager, EmulatedMutex, Outcome, returns, switches, ebusy, einval, eperm, hle_base,
  update_current, block_current_thread, unblock_thread_internal, enqueue, finish,
}

unfoldable pub new_mutex : ℕ → EmulatedMutex
new_mutex kind = record {
  is_locked = false;
  owner_thread = 0;
  lock_count = 0;
  kind = kind;
  wait_queue = [];
}

unfoldable pub put_mutex : ThreadManager → ℕ → EmulatedMutex → ThreadManager
put_mutex s ptr m = record s { mutexes = Dict.insert ptr m s.mutexes }

unfoldable pub find_mutex : ThreadManager → ℕ → ℕ → EmulatedMutex
unfolding new_mutex
find_mutex s ptr kind = elim (lookup ptr s.mutexes) [ none ↦ new_mutex kind | some m ↦ m ]

-- `type` is the word that the guest's attributes hold at offset 4.
unfoldable pub pthread_mutex_init : ThreadManager → ℕ → ℕ → ℕ → ThreadManager × Outcome
unfolding put_mutex new_mutex
pthread_mutex_init s ptr attr kind =
    (put_mutex s ptr (new_mutex (if attr == 0 then 0 else kind)), returns 0)

unfoldable pub pthread_mutex_destroy : ThreadManager → ℕ → ThreadManager × Outcome
pthread_mutex_destroy s ptr = (record s { mutexes = Dict.erase ptr s.mutexes }, returns 0)

unfoldable pub taken : EmulatedMutex → ℕ → EmulatedMutex
taken m t = record m { is_locked = true; owner_thread = t; lock_count = 1 }

-- The current thread waits for the mutex, and will run the resume function when it is woken.
unfoldable pub wait_for_mutex : ThreadManager → ℕ → ℕ → EmulatedMutex → ThreadManager
unfolding put_mutex update_current block_current_thread enqueue
wait_for_mutex s ptr return_addr m =
    let queued = record m { wait_queue = enqueue s.current_thread_id m.wait_queue } in
    let saved = update_current (put_mutex s ptr queued) (λ t. record t {
      mutex_wait_ptr = ptr;
      mutex_wait_return_addr = return_addr;
      pc = hle_base + 0xFFFEC;
    }) in
    block_current_thread saved ptr

-- `state` is the word that the guest's mutex holds, which has the type of a mutex that was
-- initialised statically in the bits 14 and 15.
unfoldable pub pthread_mutex_lock : ThreadManager → ℕ → ℕ → ThreadManager × Outcome
unfolding find_mutex put_mutex taken wait_for_mutex
pthread_mutex_lock s ptr state =
    let m = find_mutex s ptr (state / 2 ^ 14 % 4) in
    let t = s.current_thread_id in
    if m.is_locked && ltb 0 m.lock_count && (m.owner_thread == t)
    then (put_mutex s ptr (record m { lock_count = m.lock_count + 1 }), returns 0)
    else if not m.is_locked
    then (put_mutex s ptr (taken m t), returns 0)
    else (wait_for_mutex s ptr s.lr m, switches)

-- One round of the loop: it ends in a return or in `context_switch`.
unfoldable pub retry : ThreadManager → ℕ → ℕ → ThreadManager × Outcome
unfolding finish put_mutex taken wait_for_mutex
retry s ptr return_addr = elim (lookup ptr s.mutexes) [
  | none ↦ finish s return_addr 0
  | some m ↦
      if not m.is_locked
      then finish (put_mutex s ptr (taken m s.current_thread_id)) return_addr 0
      else (wait_for_mutex s ptr return_addr m, switches)
]

-- If the current thread is not in the table nothing happens; X0 stays as it is.
unfoldable pub pthread_mutex_lock_resume : ThreadManager → ThreadManager × Outcome
unfolding retry
pthread_mutex_lock_resume s = elim (lookup s.current_thread_id s.threads) [
  | none ↦ (s, returns s.x0)
  | some t ↦
      let cleared = record t { mutex_wait_ptr = 0; mutex_wait_return_addr = 0 } in
      let s' = record s { threads = Dict.insert s.current_thread_id cleared s.threads } in
      retry s' t.mutex_wait_ptr t.mutex_wait_return_addr
]

unfoldable pub pthread_mutex_trylock : ThreadManager → ℕ → ThreadManager × Outcome
unfolding find_mutex put_mutex taken
pthread_mutex_trylock s ptr =
    let m = find_mutex s ptr 0 in
    let t = s.current_thread_id in
    if (m.owner_thread == t) && ltb 0 m.lock_count
    then (if m.kind == 1
        then (put_mutex s ptr (record m { lock_count = m.lock_count + 1 }), returns 0)
        else (put_mutex s ptr m, returns ebusy))
    else if not m.is_locked
    then (put_mutex s ptr (taken m t), returns 0)
    else (put_mutex s ptr m, returns ebusy)

-- The mutex is free: wake the first thread that waits for it.
unfoldable pub release_mutex : ThreadManager → ℕ → EmulatedMutex → List ℕ → ThreadManager
unfolding put_mutex unblock_thread_internal
release_mutex s ptr m [] = put_mutex s ptr m
release_mutex s ptr m (waiting_thread ∷ queue) =
    unblock_thread_internal (put_mutex s ptr (record m { wait_queue = queue })) waiting_thread

unfoldable pub unlock_found : ThreadManager → ℕ → EmulatedMutex → ThreadManager × Outcome
unfolding put_mutex release_mutex
unlock_found s ptr m =
    let free = record m { is_locked = false; owner_thread = 0; lock_count = 0 } in
    if not m.is_locked || (m.lock_count == 0)
    then (s, returns eperm)
    else if m.lock_count == 1
    then (release_mutex s ptr free m.wait_queue, returns 0)
    else (put_mutex s ptr (record m { lock_count = m.lock_count - 1 }), returns 0)

unfoldable pub pthread_mutex_unlock : ThreadManager → ℕ → ThreadManager × Outcome
unfolding unlock_found
pthread_mutex_unlock s ptr = elim (lookup ptr s.mutexes) [
  | none ↦ (s, returns einval)
  | some m ↦ unlock_found s ptr m
]
