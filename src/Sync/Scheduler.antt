-- ===== src/Sync/Scheduler.antt =====
-- The scheduler of src/thread_manager.cpp: which thread runs next, and the switch to it.
pub mod Rouse
use cross_shim.Base.{
  ℕ, ◌+◌, ◌-◌, ◌/◌, ◌^◌, Bool, true, false, ◌&&◌, ◌||◌, not, Option, none, some, List, [], ◌∷◌,
  ◌++◌, ltb, leb, ◌==◌, if◌then◌else◌,
}
use cross_shim.Container.Dict
use cross_shim.Container.Dict.{lookup}
use cross_shim.Sync.{
  ThreadManager, ThreadContext, ThreadState, IoOperation, created, runnable, running, blocked,
  sleeping, io_wait, terminated, no_operation, recv, send, accept, connect, recvfrom, sendto, read,
  write, hle_base,
}

abbrev pub hle_size : ℕ
hle_size = 0x00100000

pub data SwitchReason : Type 0 where
  blocking_operation : SwitchReason
  periodic_preemption : SwitchReason
  emergency_preemption : SwitchReason
  thread_exit : SwitchReason
  thread_yield : SwitchReason

-- What the scheduler reads from the host when it looks for a thread: the time in nanoseconds, and
-- `poll` of a file descriptor, for reading or for writing.
pub record Host : Type 0 where
  pub now : ℕ
  pub poll : ℕ → Bool → Bool

unfoldable pub is_runnable : ThreadState → Bool
is_runnable runnable = true
is_runnable created = false
is_runnable running = false
is_runnable blocked = false
is_runnable sleeping = false
is_runnable io_wait = false
is_runnable terminated = false

unfoldable pub is_running : ThreadState → Bool
is_running running = true
is_running created = false
is_running runnable = false
is_running blocked = false
is_running sleeping = false
is_running io_wait = false
is_running terminated = false

unfoldable pub is_terminated : ThreadState → Bool
is_terminated terminated = true
is_terminated created = false
is_terminated runnable = false
is_terminated running = false
is_terminated blocked = false
is_terminated sleeping = false
is_terminated io_wait = false

-- A sleeping thread whose time has come.
unfoldable pub has_slept : Host → ThreadContext → ThreadState → Bool
has_slept h c sleeping = leb c.sleep_until h.now
has_slept h c created = false
has_slept h c runnable = false
has_slept h c running = false
has_slept h c blocked = false
has_slept h c io_wait = false
has_slept h c terminated = false

unfoldable pub waits_for_input : IoOperation → Bool
waits_for_input recv = true
waits_for_input accept = true
waits_for_input recvfrom = true
waits_for_input no_operation = false
waits_for_input send = false
waits_for_input connect = false
waits_for_input sendto = false
waits_for_input read = false
waits_for_input write = false

unfoldable pub has_timed_out : Host → ℕ → Option ℕ → Bool
has_timed_out h start none = false
has_timed_out h start (some timeout_ms) = leb timeout_ms ((h.now - start) / 10 ^ 6)

unfoldable pub fd_ready : Host → Bool → Option ℕ → Bool
fd_ready h for_input none = false
fd_ready h for_input (some fd) = h.poll fd for_input

-- A thread that waits for input or output and need not wait longer.
unfoldable pub has_io : Host → ThreadContext → ThreadState → Bool
unfolding has_timed_out fd_ready waits_for_input
has_io h c io_wait =
    has_timed_out h c.coop_io_start c.epoll_timeout_ms
    || fd_ready h (waits_for_input c.io_operation) c.io_fd
has_io h c created = false
has_io h c runnable = false
has_io h c running = false
has_io h c blocked = false
has_io h c sleeping = false
has_io h c terminated = false

-- A pass over the table: the threads that satisfy the test become runnable.
unfoldable pub wake_threads :
    (ThreadContext → Bool) → List (ℕ × ThreadContext) → List (ℕ × ThreadContext) × List ℕ
wake_threads test [] = ([], [])
wake_threads test ((t, c) ∷ others) =
    let (table, woken) = wake_threads test others in
    if test c
    then ((t, record c { state = runnable }) ∷ table, t ∷ woken)
    else ((t, c) ∷ table, woken)

unfoldable pub wake_pass : ThreadManager → (ThreadContext → Bool) → ThreadManager
unfolding wake_threads
wake_pass s test =
    let (table, woken) = wake_threads test s.threads in
    record s { threads = table; runnable_queue = s.runnable_queue ++ woken }

-- The queue is read up to a thread that is still runnable.
unfoldable pub pop_runnable : List (ℕ × ThreadContext) → List ℕ → Option ℕ × List ℕ
unfolding is_runnable
pop_runnable threads [] = (none, [])
pop_runnable threads (t ∷ q) =
    let rest = pop_runnable threads q in
    elim (lookup t threads) [
      | none ↦ rest
      | some c ↦ if is_runnable c.state then (some t, q) else rest
    ]

unfoldable pub select_next_thread : Host → ThreadManager → Option ℕ × ThreadManager
unfolding wake_pass has_slept has_io pop_runnable
select_next_thread h s =
    let slept = wake_pass s (λ c. has_slept h c c.state) in
    let ready = wake_pass slept (λ c. has_io h c c.state) in
    let (next, queue) = pop_runnable ready.threads ready.runnable_queue in
    (next, record ready { runnable_queue = queue })

unfoldable pub save_thread_state : ThreadManager → ThreadContext → ThreadContext
save_thread_state s c = record c { saved_x0 = s.x0; saved_lr = s.lr; pc = s.pc; others = s.others }

-- The thread starts to run with its registers.
unfoldable pub restore_thread_state : ThreadManager → ThreadContext → ThreadManager
restore_thread_state s c = record s {
  threads = Dict.insert s.current_thread_id (record c { block_next_switch = true }) s.threads;
  x0 = c.saved_x0;
  lr = c.saved_lr;
  pc = c.pc;
  others = c.others;
}

unfoldable pub in_hle : ℕ → Bool
in_hle pc = leb hle_base pc && ltb pc (hle_base + hle_size)

unfoldable pub has_operation : IoOperation → Bool
has_operation no_operation = false
has_operation recv = true
has_operation send = true
has_operation accept = true
has_operation connect = true
has_operation recvfrom = true
has_operation sendto = true
has_operation read = true
has_operation write = true

-- Whether the saved PC is the address of a resume function.
unfoldable pub has_resume_pc : ThreadContext → ThreadState → Bool
unfolding in_hle has_operation
has_resume_pc c io_wait = has_operation c.io_operation && in_hle c.pc
has_resume_pc c blocked =
    (not (c.mutex_wait_ptr == 0)
      || not (c.cond_wait_mutex == 0)
      || not (c.join_target_thread == 0)
      || not (c.barrier_wait_ptr == 0)
      || not (c.futex_wait_addr == 0))
    && in_hle c.pc
has_resume_pc c created = false
has_resume_pc c runnable = false
has_resume_pc c running = false
has_resume_pc c sleeping = false
has_resume_pc c terminated = false
