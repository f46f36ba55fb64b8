-- ===== src/Sync/Tests/Switching.antt =====
-- The theorems of the scheduler and of the joins at concrete threads.
use cross_shim.Base.{ℕ, ◌≡◌, refl, true, false, some, none, [], ◌∷◌, ◌++◌, ◌+◌, arith}
use cross_shim.Container.Dict.{lookup}
use cross_shim.Sync.{
  ThreadManager, ThreadContext, EmulatedRwLock, returns, switches, runnable, blocked, is_blocked,
  hle_base,
}
use cross_shim.Sync.Keys.Isolation.{on_thread}
use cross_shim.Sync.Mutex.{pthread_mutex_lock}
use cross_shim.Sync.RwLock.{new_rwlock}
use cross_shim.Sync.Scheduler.{
  Host, blocking_operation, periodic_preemption, is_running, is_terminated,
}
use cross_shim.Sync.Switch.{context_switch}
use cross_shim.Sync.Switch.Registers.{registers, switch_keeps_registers}
use cross_shim.Sync.Switch.Running.{OneRuns, context_switch-OneRuns}
use cross_shim.Sync.Switch.Resume.{lock_then_switch}
use cross_shim.Sync.Switch.Waiting.{wait_then_switch}
use cross_shim.Sync.Cond.{pthread_cond_wait}
use cross_shim.Sync.Thread.{pthread_join, pthread_join_resume, pthread_exit}
use cross_shim.Sync.Thread.Join.{join_gets_value}
use cross_shim.Sync.Tests.{awake, waiting, threads, held_mutex, mutex_found}

-- Nothing happens outside.
abbrev idle : ℕ → Host
idle n = record { now = n; poll = λ fd for_input. false }

-- Thread 1 can run.
abbrev two_ready : ThreadManager
two_ready = record threads {
  threads =
      (1, record awake { state = runnable; pc = 96; saved_x0 = 8 })
      ∷ (2, awake)
      ∷ (3, waiting)
      ∷ [];
}

running_found : lookup two_ready.current_thread_id two_ready.threads ≡ some awake
unfolding lookup
running_found = refl

awake_runs : is_running awake.state ≡ true
unfolding is_running
awake_runs = refl

switch_keeps_registers_example :
    registers (context_switch idle two_ready periodic_preemption) 1 ≡ registers two_ready 1
switch_keeps_registers_example =
    switch_keeps_registers idle two_ready periodic_preemption awake 1 running_found awake_runs

one-OneRuns : OneRuns two_ready
unfolding lookup is_running
one-OneRuns t = ground arith

context_switch-OneRuns_example : OneRuns (context_switch idle two_ready periodic_preemption)
context_switch-OneRuns_example =
    context_switch-OneRuns idle two_ready periodic_preemption one-OneRuns

lock_then_switch_example :
    lookup 2 (context_switch idle (pthread_mutex_lock two_ready 512 0).0 blocking_operation).threads
    ≡ some (record awake {
      state = blocked;
      blocked_on_resource = 512;
      mutex_wait_ptr = 512;
      mutex_wait_return_addr = 4096;
      pc = hle_base + 0xFFFEC;
      saved_x0 = 0;
      saved_lr = 4096;
      others = 7;
      block_next_switch = false;
    })
lock_then_switch_example =
    lock_then_switch idle two_ready 512 awake running_found held_mutex 0 mutex_found refl
      (ground arith) (ground arith)

not_blocked : is_blocked awake.state ≡ false
unfolding is_blocked
not_blocked = refl

wait_then_switch_example :
    lookup 2
      (context_switch idle (pthread_cond_wait two_ready 640 512).0 blocking_operation).threads
    ≡ some (record awake {
      state = blocked;
      blocked_on_resource = 640;
      cond_wait_mutex = 512;
      cond_wait_return_addr = 4096;
      pc = hle_base + 0xFFFF4;
      saved_x0 = 0;
      saved_lr = 4096;
      others = 7;
      block_next_switch = false;
    })
wait_then_switch_example =
    wait_then_switch idle two_ready 640 512 awake running_found not_blocked (ground arith)

-- Thread 1 writes.
abbrev written : EmulatedRwLock
written = record new_rwlock { writer = 1; write_count = 1 }

abbrev with_writer : ThreadManager
with_writer = record two_ready { rwlocks = (768, written) ∷ [] }

writer_found : lookup 768 with_writer.rwlocks ≡ some written
unfolding lookup
writer_found = refl

abbrev ready_one : ThreadContext
ready_one = record awake { state = runnable; pc = 96; saved_x0 = 8 }

one_found : lookup 1 two_ready.threads ≡ some ready_one
unfolding lookup
one_found = refl

one_alive : is_terminated ready_one.state ≡ false
unfolding is_terminated
one_alive = refl

join_gets_value_example :
    let (s1, joined, stored) = pthread_join two_ready 1 1024 in
    let s2 = (pthread_exit (on_thread s1 1) 55).0 in
    let (s3, out, written) = pthread_join_resume (on_thread s2 2) in
    (joined ≡ switches)
    × (stored ≡ none)
    × (s2.runnable_queue ≡ s1.runnable_queue ++ 2 ∷ [])
    × (out ≡ returns 0)
    × (s3.lr ≡ 4096)
    × (lookup 1 s3.threads ≡ none)
    × (written ≡ some (1024, 55))
join_gets_value_example =
    join_gets_value two_ready 1 1024 55 awake ready_one running_found one_found (ground arith) refl
      one_alive refl
