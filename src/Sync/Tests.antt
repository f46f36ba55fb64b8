-- ===== src/Sync/Tests.antt =====
-- The theorems of the locks at concrete threads.
mod Waiting
mod Switching
mod Reading
use cross_shim.Base.{◌≡◌, refl, true, false, none, some, [], ◌∷◌, arith}
use cross_shim.Container.Dict.{lookup}
use cross_shim.Sync.{
  ThreadManager, ThreadContext, EmulatedMutex, running, blocked, no_operation, returns, switches,
}
use cross_shim.Sync.Mutex.{pthread_mutex_lock, pthread_mutex_unlock}
use cross_shim.Sync.RwLock.{
  new_rwlock, find_rwlock, pthread_rwlock_trywrlock, pthread_rwlock_wrlock, pthread_rwlock_unlock,
}
use cross_shim.Sync.Exclusion.{
  MutexesValid, locks, tries, unlocks, resumes, run_mutexes, run-MutexesValid, queued,
}
use cross_shim.Sync.Handover.{lock_held, unlock_wakes}
use cross_shim.Sync.Readers
use cross_shim.Sync.Sharing.{RwLocksValid}
use cross_shim.Sync.Readers.{run_rwlocks, run-RwLocksValid}
use cross_shim.Sync.Recursive.{unlock_twice_taken}

abbrev pub awake : ThreadContext
awake = record {
  state = running;
  detached = false;
  return_value = 0;
  blocked_on_resource = 0;
  sleep_until = 0;
  pc = 64;
  saved_x0 = 0;
  saved_lr = 0;
  others = 0;
  join_wait_queue = [];
  cond_wait_mutex = 0;
  cond_wait_return_addr = 0;
  join_target_thread = 0;
  join_retval_ptr = 0;
  join_return_addr = 0;
  barrier_wait_ptr = 0;
  barrier_wait_return_addr = 0;
  futex_wait_addr = 0;
  futex_wait_return_addr = 0;
  io_operation = no_operation;
  io_fd = none;
  io_buf_ptr = 0;
  io_len = 0;
  io_flags = 0;
  io_addr_ptr = 0;
  io_addrlen_ptr = 0;
  io_return_addr = 0;
  epoll_timeout_ms = none;
  coop_io_start = 0;
  block_next_switch = false;
  mutex_wait_ptr = 0;
  mutex_wait_return_addr = 0;
  rwlock_rdlock_ptr = 0;
  rwlock_rdlock_return_addr = 0;
  rwlock_wrlock_ptr = 0;
  rwlock_wrlock_return_addr = 0;
}

abbrev pub waiting : ThreadContext
waiting = record awake { state = blocked; blocked_on_resource = 512; mutex_wait_ptr = 512 }

abbrev pub held_mutex : EmulatedMutex
held_mutex = record {
  is_locked = true;
  owner_thread = 1;
  lock_count = 1;
  kind = 0;
  wait_queue = 3 ∷ [];
}

-- Thread 2 runs; thread 1 holds the mutex that thread 3 waits for.
abbrev pub threads : ThreadManager
threads = record {
  current_thread_id = 2;
  threads = (1, awake) ∷ (2, awake) ∷ (3, waiting) ∷ [];
  runnable_queue = 1 ∷ [];
  mutexes = (512, held_mutex) ∷ [];
  rwlocks = (768, new_rwlock) ∷ [];
  condvars = [];
  barriers = [];
  tls_data = [];
  tls_destructors = [];
  next_tls_key = 1;
  x0 = 0;
  lr = 4096;
  pc = 8192;
  others = 7;
}

threads-MutexesValid : MutexesValid threads
unfolding lookup
threads-MutexesValid p m e = ground arith

threads-RwLocksValid : RwLocksValid threads
unfolding lookup
threads-RwLocksValid p l e = ground arith

run-MutexesValid_example :
    MutexesValid (
      run_mutexes threads
        ((1, locks 512 0) ∷ (0, unlocks 512) ∷ (2, resumes) ∷ (0, tries 512) ∷ []))
run-MutexesValid_example =
    run-MutexesValid threads
      ((1, locks 512 0) ∷ (0, unlocks 512) ∷ (2, resumes) ∷ (0, tries 512) ∷ [])
      threads-MutexesValid

run-RwLocksValid_example : RwLocksValid (
    run_rwlocks threads
      ((1, Readers.reads 768) ∷ (2, Readers.writes 768) ∷ (1, Readers.unlocks 768) ∷ []))
run-RwLocksValid_example =
    run-RwLocksValid threads
      ((1, Readers.reads 768) ∷ (2, Readers.writes 768) ∷ (1, Readers.unlocks 768) ∷ [])
      threads-RwLocksValid

pub mutex_found : lookup 512 threads.mutexes ≡ some held_mutex
unfolding lookup
mutex_found = refl

pub thread_found : lookup 3 threads.threads ≡ some waiting
unfolding lookup
thread_found = refl

rwlock_found : lookup 768 threads.rwlocks ≡ some new_rwlock
unfolding lookup
rwlock_found = refl
