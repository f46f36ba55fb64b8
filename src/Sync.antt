-- ===== src/Sync.antt =====
-- The parts of ThreadManager (include/thread_manager.h and src/thread_manager.cpp) that its locks use:
-- the table of threads, blocking and waking, and the tables of locks.
pub mod Wake
pub mod Mutex
pub mod Exclusion
pub mod Handover
pub mod RwLock
pub mod Sharing
pub mod Readers
pub mod Recursive
pub mod Cond
pub mod Barrier
pub mod Keys
pub mod Thread
pub mod Scheduler
pub mod Switch
pub mod Io
pub mod Yield
mod Tests
use cross_shim.Base.{
  ℕ, ◌+◌, Bool, true, false, Option, none, some, List, [], ◌∷◌, ◌++◌, ◌==◌, if◌then◌else◌,
}
use cross_shim.Container.Dict
use cross_shim.Container.Dict.{lookup}

pub data ThreadState : Type 0 where
  created : ThreadState
  runnable : ThreadState
  running : ThreadState
  blocked : ThreadState
  sleeping : ThreadState
  io_wait : ThreadState
  terminated : ThreadState

pub data IoOperation : Type 0 where
  no_operation : IoOperation
  recv : IoOperation
  send : IoOperation
  accept : IoOperation
  connect : IoOperation
  recvfrom : IoOperation
  sendto : IoOperation
  read : IoOperation
  write : IoOperation

pub record ThreadContext : Type 0 where
  pub state : ThreadState
  pub detached : Bool
  pub return_value : ℕ
  pub blocked_on_resource : ℕ
  pub sleep_until : ℕ
  -- The saved registers; `others` stands for all but X0, LR and PC.
  pub pc : ℕ
  pub saved_x0 : ℕ
  pub saved_lr : ℕ
  pub others : ℕ
  pub join_wait_queue : List ℕ
  pub cond_wait_mutex : ℕ
  pub cond_wait_return_addr : ℕ
  pub join_target_thread : ℕ
  pub join_retval_ptr : ℕ
  pub join_return_addr : ℕ
  pub barrier_wait_ptr : ℕ
  pub barrier_wait_return_addr : ℕ
  pub futex_wait_addr : ℕ
  pub futex_wait_return_addr : ℕ
  pub io_operation : IoOperation
  -- io_fd, none if it is negative.
  pub io_fd : Option ℕ
  pub io_buf_ptr : ℕ
  pub io_len : ℕ
  pub io_flags : ℕ
  pub io_addr_ptr : ℕ
  pub io_addrlen_ptr : ℕ
  pub io_return_addr : ℕ
  -- coop_io_timeout_ms, if coop_io_type is EPOLL_WAIT and the timeout is not negative.
  pub epoll_timeout_ms : Option ℕ
  pub coop_io_start : ℕ
  pub block_next_switch : Bool
  pub mutex_wait_ptr : ℕ
  pub mutex_wait_return_addr : ℕ
  pub rwlock_rdlock_ptr : ℕ
  pub rwlock_rdlock_return_addr : ℕ
  pub rwlock_wrlock_ptr : ℕ
  pub rwlock_wrlock_return_addr : ℕ

pub record EmulatedMutex : Type 0 where
  pub is_locked : Bool
  pub owner_thread : ℕ
  pub lock_count : ℕ
  pub kind : ℕ
  pub wait_queue : List ℕ

pub record EmulatedRwLock : Type 0 where
  pub readers : ℕ
  pub writer : ℕ
  pub write_count : ℕ
  pub read_wait_queue : List ℕ
  pub write_wait_queue : List ℕ

pub record EmulatedBarrier : Type 0 where
  pub count : ℕ
  pub waiting : ℕ
  pub generation : ℕ
  pub wait_queue : List ℕ

pub record ThreadManager : Type 0 where
  pub current_thread_id : ℕ
  pub threads : List (ℕ × ThreadContext)
  pub runnable_queue : List ℕ
  pub mutexes : List (ℕ × EmulatedMutex)
  pub rwlocks : List (ℕ × EmulatedRwLock)
  -- The queues of the condition variables.
  pub condvars : List (ℕ × List ℕ)
  pub barriers : List (ℕ × EmulatedBarrier)
  -- Thread-specific values, by thread and key.
  pub tls_data : List (ℕ × List (ℕ × ℕ))
  pub tls_destructors : List (ℕ × ℕ)
  pub next_tls_key : ℕ
  -- X0, LR, PC and the other registers of the processor.
  pub x0 : ℕ
  pub lr : ℕ
  pub pc : ℕ
  pub others : ℕ

-- How a call ends: with a result for the guest, or in `context_switch`.
pub data Outcome : Type 0 where
  returns : ℕ → Outcome
  switches : Outcome

abbrev pub ebusy : ℕ
ebusy = 16

abbrev pub einval : ℕ
einval = 22

abbrev pub eperm : ℕ
eperm = 1

abbrev pub hle_base : ℕ
hle_base = 0x10000000

unfoldable pub is_blocked : ThreadState → Bool
is_blocked blocked = true
is_blocked created = false
is_blocked runnable = false
is_blocked running = false
is_blocked sleeping = false
is_blocked io_wait = false
is_blocked terminated = false

-- A change of the current thread, if it is in the table.
unfoldable pub update_current : ThreadManager → (ThreadContext → ThreadContext) → ThreadManager
update_current s f = elim (lookup s.current_thread_id s.threads) [
  | none ↦ s
  | some t ↦ record s { threads = Dict.insert s.current_thread_id (f t) s.threads }
]

unfoldable pub block_current_thread : ThreadManager → ℕ → ThreadManager
unfolding update_current
block_current_thread s resource_id =
    update_current s (λ t. record t { state = blocked; blocked_on_resource = resource_id })

unfoldable pub unblock_thread_internal : ThreadManager → ℕ → ThreadManager
unfolding is_blocked
unblock_thread_internal s thread_id = elim (lookup thread_id s.threads) [
  | none ↦ s
  | some t ↦
      if is_blocked t.state
      then record s {
        threads =
            Dict.insert thread_id (record t { state = runnable; blocked_on_resource = 0 })
              s.threads;
        runnable_queue = s.runnable_queue ++ thread_id ∷ [];
      }
      else s
]

-- `std::find`
unfoldable pub contains : ℕ → List ℕ → Bool
contains t [] = false
contains t (u ∷ q) = let rest = contains t q in if u == t then true else rest

-- A thread enters a queue of waiting threads at the end, and at most once.
unfoldable pub enqueue : ℕ → List ℕ → List ℕ
unfolding contains
enqueue t q = if contains t q then q else q ++ t ∷ []

-- The threads of a queue are woken in its order.
unfoldable pub unblock_all : ThreadManager → List ℕ → ThreadManager
unfolding unblock_thread_internal
unblock_all s [] = s
unblock_all s (t ∷ q) = unblock_all (unblock_thread_internal s t) q

-- A resume function returns to the caller of the call that blocked.
unfoldable pub finish : ThreadManager → ℕ → ℕ → ThreadManager × Outcome
finish s return_addr result = (record s { lr = return_addr; x0 = result }, returns result)
