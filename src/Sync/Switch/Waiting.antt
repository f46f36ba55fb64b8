-- ===== src/Sync/Switch/Waiting.antt =====
-- Where a thread goes on that waits on a condition variable and was switched away from.
use cross_shim.Base.{
  ℕ, ◌+◌, ◌≡◌, ◌≢◌, refl, true, false, ◌||◌, not, some, List, [], ◌∷◌, arith, ◌==◌, ap, ◌∙◌,
  Bool-cases, Option-cases, inl, inr,
}
use cross_shim.Container.Dict.{lookup}
use cross_shim.Sync.{
  ThreadManager, ThreadContext, EmulatedMutex, blocked, is_blocked, hle_base, update_current,
  block_current_thread, unblock_thread_internal,
}
use cross_shim.Sync.Mutex.{pthread_mutex_unlock, unlock_found, release_mutex, put_mutex}
use cross_shim.Sync.Cond.{pthread_cond_wait, join_cond, put_cond}
use cross_shim.Sync.Cond.Waking.{wait-lookup}
use cross_shim.Sync.Scheduler.{blocking_operation, Host, has_resume_pc, in_hle}
use cross_shim.Sync.Switch.{context_switch}
use cross_shim.Sync.Switch.Resume.{
  processor, update_current-processor, with_registers, parked-resume, switch-lookup,
}

unblock-processor :
    (s : ThreadManager) (t : ℕ) → processor (unblock_thread_internal s t) ≡ processor s
unfolding unblock_thread_internal
unblock-processor s t = elim (Option-cases (lookup t s.threads)) [
  | inl e ↦ rw (unblock_thread_internal, e) refl
  | inr (c, e) ↦ elim (Bool-cases (is_blocked c.state)) [
    | inl asleep ↦ rw (unblock_thread_internal, e, asleep) refl
    | inr awake ↦ rw (unblock_thread_internal, e, awake) refl
  ]
]

release-processor :
    (s : ThreadManager) (p : ℕ) (m : EmulatedMutex) (q : List ℕ)
    → processor (release_mutex s p m q) ≡ processor s
unfolding release_mutex put_mutex
release-processor s p m [] = refl
release-processor s p m (w ∷ q) = unblock-processor _ w

unlock_found-processor :
    (s : ThreadManager) (p : ℕ) (m : EmulatedMutex) → processor (unlock_found s p m).0 ≡ processor s
unfolding unlock_found put_mutex
unlock_found-processor s p m = elim (Bool-cases (not m.is_locked || (m.lock_count == 0))) [
  | inl e ↦ rw (e) refl
  | inr e ↦ elim (Bool-cases (m.lock_count == 1)) [
    | inl once ↦ rw (e, once) (release-processor s p _ m.wait_queue)
    | inr more ↦ rw (e, more) refl
  ]
]

unlock-processor :
    (s : ThreadManager) (p : ℕ) → processor (pthread_mutex_unlock s p).0 ≡ processor s
unfolding pthread_mutex_unlock
unlock-processor s p = elim (Option-cases (lookup p s.mutexes)) [
  | inl e ↦ rw (pthread_mutex_unlock, e) refl
  | inr (m, e) ↦ rw (pthread_mutex_unlock, e) (unlock_found-processor s p m)
]

module _ (hosts : ℕ → Host) (s : ThreadManager) (ptr mutex : ℕ) (c : ThreadContext) where
  wait-processor : processor (pthread_cond_wait s ptr mutex).0 ≡ processor s
  unfolding pthread_cond_wait join_cond put_cond block_current_thread
  wait-processor =
      let saved = update_current (join_cond s ptr) (λ t. record t {
        cond_wait_mutex = mutex;
        cond_wait_return_addr = s.lr;
        pc = hle_base + 0xFFFF4;
      }) in
      update_current-processor (pthread_mutex_unlock saved mutex).0 _
      ∙ unlock-processor saved mutex
      ∙ update_current-processor (join_cond s ptr) _

  -- The entry of a thread that waits on a condition variable.
  abbrev waits_on_cond : ThreadContext
  waits_on_cond = record c {
    state = blocked;
    blocked_on_resource = ptr;
    cond_wait_mutex = mutex;
    cond_wait_return_addr = s.lr;
    pc = hle_base + 0xFFFF4;
  }

  cond_resumes : mutex ≢ 0 → has_resume_pc waits_on_cond blocked ≡ true
  unfolding has_resume_pc in_hle
  cond_resumes real = ground (arith, real)

  -- The thread that runs, which is in the table and not blocked, and which waits on a condition
  -- variable with a mutex at an address that is not 0 and is then taken off the processor by
  -- `context_switch`, whatever happens outside, is blocked on the variable, has its registers saved
  -- but for PC, and will run the resume function, with the mutex to lock again and the address to
  -- return to.
  pub wait_then_switch :
      lookup s.current_thread_id s.threads ≡ some c
      → is_blocked c.state ≡ false
      → mutex ≢ 0
      → lookup s.current_thread_id
          (context_switch hosts (pthread_cond_wait s ptr mutex).0 blocking_operation).threads
        ≡ some (record c {
          state = blocked;
          blocked_on_resource = ptr;
          cond_wait_mutex = mutex;
          cond_wait_return_addr = s.lr;
          pc = hle_base + 0xFFFF4;
          saved_x0 = s.x0;
          saved_lr = s.lr;
          others = s.others;
          block_next_switch = false;
        })
  wait_then_switch at awake real =
      let w' = (pthread_cond_wait s ptr mutex).0 in
      switch-lookup hosts s w' waits_on_cond wait-processor (wait-lookup s ptr mutex c at awake)
        refl
      ∙ ap some (
          parked-resume w' waits_on_cond (cond_resumes real)
          ∙ ap (λ x. with_registers waits_on_cond x waits_on_cond.pc) wait-processor)
