-- ===== src/Sync/RwLock.antt =====
-- The read-write locks of src/thread_manager.cpp. A call is described up to `context_switch`.
use cross_shim.Base.{ℕ, ◌+◌, ◌-◌, Bool, ◌&&◌, none, some, List, [], ◌∷◌, ltb, ◌==◌, if◌then◌else◌}
use cross_shim.Container.Dict
use cross_shim.Container.Dict.{lookup}
use cross_shim.Sync.{
  ThreadManager, EmulatedRwLock, Outcome, returns, switches, ebusy, einval, hle_base,
  update_current, block_current_thread, unblock_thread_internal, enqueue, finish, unblock_all,
}

abbrev pub new_rwlock : EmulatedRwLock
new_rwlock = record {
  readers = 0;
  writer = 0;
  write_count = 0;
  read_wait_queue = [];
  write_wait_queue = [];
}

unfoldable pub put_rwlock : ThreadManager → ℕ → EmulatedRwLock → ThreadManager
put_rwlock s ptr l = record s { rwlocks = Dict.insert ptr l s.rwlocks }

unfoldable pub find_rwlock : ThreadManager → ℕ → EmulatedRwLock
find_rwlock s ptr = elim (lookup ptr s.rwlocks) [ none ↦ new_rwlock | some l ↦ l ]

unfoldable pub pthread_rwlock_init : ThreadManager → ℕ → ThreadManager × Outcome
unfolding put_rwlock
pthread_rwlock_init s ptr = (put_rwlock s ptr new_rwlock, returns 0)

unfoldable pub pthread_rwlock_destroy : ThreadManager → ℕ → ThreadManager × Outcome
pthread_rwlock_destroy s ptr = (record s { rwlocks = Dict.erase ptr s.rwlocks }, returns 0)

unfoldable pub add_reader : EmulatedRwLock → EmulatedRwLock
add_reader l = record l { readers = l.readers + 1 }

unfoldable pub wait_to_read : ThreadManager → ℕ → ℕ → EmulatedRwLock → ThreadManager
unfolding put_rwlock update_current block_current_thread enqueue
wait_to_read s ptr return_addr l =
    let queued = record l { read_wait_queue = enqueue s.current_thread_id l.read_wait_queue } in
    let saved = update_current (put_rwlock s ptr queued) (λ t. record t {
      rwlock_rdlock_ptr = ptr;
      rwlock_rdlock_return_addr = return_addr;
      pc = hle_base + 0xFFFD8;
    }) in
    block_current_thread saved ptr

unfoldable pub wait_to_write : ThreadManager → ℕ → ℕ → EmulatedRwLock → ThreadManager
unfolding put_rwlock update_current block_current_thread enqueue
wait_to_write s ptr return_addr l =
    let queued = record l { write_wait_queue = enqueue s.current_thread_id l.write_wait_queue } in
    let saved = update_current (put_rwlock s ptr queued) (λ t. record t {
      rwlock_wrlock_ptr = ptr;
      rwlock_wrlock_return_addr = return_addr;
      pc = hle_base + 0xFFFD4;
    }) in
    block_current_thread saved ptr

unfoldable pub pthread_rwlock_rdlock : ThreadManager → ℕ → ThreadManager × Outcome
unfolding find_rwlock put_rwlock add_reader wait_to_read
pthread_rwlock_rdlock s ptr =
    let l = find_rwlock s ptr in
    if l.writer == 0
    then (put_rwlock s ptr (add_reader l), returns 0)
    else (wait_to_read s ptr s.lr l, switches)

unfoldable pub retry_read : ThreadManager → ℕ → ℕ → ThreadManager × Outcome
unfolding finish put_rwlock add_reader wait_to_read
retry_read s ptr return_addr = elim (lookup ptr s.rwlocks) [
  | none ↦ finish s return_addr 0
  | some l ↦
      if l.writer == 0
      then finish (put_rwlock s ptr (add_reader l)) return_addr 0
      else (wait_to_read s ptr return_addr l, switches)
]

unfoldable pub pthread_rwlock_rdlock_resume : ThreadManager → ThreadManager × Outcome
unfolding retry_read
pthread_rwlock_rdlock_resume s = elim (lookup s.current_thread_id s.threads) [
  | none ↦ (s, returns s.x0)
  | some t ↦
      let cleared = record t { rwlock_rdlock_ptr = 0; rwlock_rdlock_return_addr = 0 } in
      let s' = record s { threads = Dict.insert s.current_thread_id cleared s.threads } in
      retry_read s' t.rwlock_rdlock_ptr t.rwlock_rdlock_return_addr
]

unfoldable pub pthread_rwlock_tryrdlock : ThreadManager → ℕ → ThreadManager × Outcome
unfolding find_rwlock put_rwlock add_reader
pthread_rwlock_tryrdlock s ptr =
    let l = find_rwlock s ptr in
    if l.writer == 0
    then (put_rwlock s ptr (add_reader l), returns 0)
    else (put_rwlock s ptr l, returns ebusy)

abbrev pub is_free : EmulatedRwLock → Bool
is_free l = (l.readers == 0) && (l.writer == 0)

unfoldable pub pthread_rwlock_wrlock : ThreadManager → ℕ → ThreadManager × Outcome
unfolding find_rwlock put_rwlock wait_to_write
pthread_rwlock_wrlock s ptr =
    let l = find_rwlock s ptr in
    let t = s.current_thread_id in
    if l.writer == t
    then (put_rwlock s ptr (record l { write_count = l.write_count + 1 }), returns 0)
    else if is_free l
    then (put_rwlock s ptr (record l { writer = t; write_count = 1 }), returns 0)
    else (wait_to_write s ptr s.lr l, switches)

unfoldable pub retry_write : ThreadManager → ℕ → ℕ → ThreadManager × Outcome
unfolding finish put_rwlock wait_to_write
retry_write s ptr return_addr = elim (lookup ptr s.rwlocks) [
  | none ↦ finish s return_addr 0
  | some l ↦
      if is_free l
      then finish (put_rwlock s ptr (record l { writer = s.current_thread_id })) return_addr 0
      else (wait_to_write s ptr return_addr l, switches)
]

unfoldable pub pthread_rwlock_wrlock_resume : ThreadManager → ThreadManager × Outcome
unfolding retry_write
pthread_rwlock_wrlock_resume s = elim (lookup s.current_thread_id s.threads) [
  | none ↦ (s, returns s.x0)
  | some t ↦
      let cleared = record t { rwlock_wrlock_ptr = 0; rwlock_wrlock_return_addr = 0 } in
      let s' = record s { threads = Dict.insert s.current_thread_id cleared s.threads } in
      retry_write s' t.rwlock_wrlock_ptr t.rwlock_wrlock_return_addr
]

unfoldable pub pthread_rwlock_trywrlock : ThreadManager → ℕ → ThreadManager × Outcome
unfolding find_rwlock put_rwlock
pthread_rwlock_trywrlock s ptr =
    let l = find_rwlock s ptr in
    if is_free l
    then (put_rwlock s ptr (record l { writer = s.current_thread_id }), returns 0)
    else (put_rwlock s ptr l, returns ebusy)

-- No one holds the lock: wake the first writer, or else every reader.
unfoldable pub release_writer : ThreadManager → ℕ → EmulatedRwLock → List ℕ → ThreadManager
unfolding put_rwlock unblock_thread_internal unblock_all
release_writer s ptr l [] =
    unblock_all (put_rwlock s ptr (record l { read_wait_queue = [] })) l.read_wait_queue
release_writer s ptr l (t ∷ q) =
    unblock_thread_internal (put_rwlock s ptr (record l { write_wait_queue = q })) t

-- The last reader has left: wake the first writer.
unfoldable pub release_readers : ThreadManager → ℕ → EmulatedRwLock → List ℕ → ThreadManager
unfolding put_rwlock unblock_thread_internal
release_readers s ptr l [] = put_rwlock s ptr l
release_readers s ptr l (t ∷ q) =
    unblock_thread_internal (put_rwlock s ptr (record l { write_wait_queue = q })) t

unfoldable pub unlock_rwlock : ThreadManager → ℕ → EmulatedRwLock → ThreadManager
unfolding put_rwlock release_writer release_readers
unlock_rwlock s ptr l =
    let fewer = record l { readers = l.readers - 1 } in
    if l.writer == s.current_thread_id
    then (if ltb 1 l.write_count
        then put_rwlock s ptr (record l { write_count = l.write_count - 1 })
        else release_writer s ptr (record l { writer = 0; write_count = 0 }) l.write_wait_queue)
    else if l.readers == 0
    then s
    else if l.readers == 1
    then release_readers s ptr fewer l.write_wait_queue
    else put_rwlock s ptr fewer

unfoldable pub pthread_rwlock_unlock : ThreadManager → ℕ → ThreadManager × Outcome
unfolding unlock_rwlock
pthread_rwlock_unlock s ptr = elim (lookup ptr s.rwlocks) [
  | none ↦ (s, returns einval)
  | some l ↦ (unlock_rwlock s ptr l, returns 0)
]
