-- ===== src/Sync/Switch/Resume.antt =====
-- Where a thread goes on that has blocked in a lock and was switched away from.
use cross_shim.Base.{
  ℕ, ◌+◌, ◌≡◌, ◌≢◌, refl, true, false, ◌&&◌, not, some, arith, ltb, ◌==◌, ap, ◌∙◌, sym,
  Option-cases, inl, inr,
}
use cross_shim.Container.Dict.{lookup}
use cross_shim.Sync.{
  ThreadManager, ThreadContext, EmulatedMutex, EmulatedRwLock, blocked, hle_base, update_current,
  block_current_thread,
}
use cross_shim.Sync.Wake.{update_current-lookup, update_current-id}
use cross_shim.Sync.Mutex.{pthread_mutex_lock, wait_for_mutex, put_mutex}
use cross_shim.Sync.RwLock.{pthread_rwlock_rdlock, wait_to_read, put_rwlock}
use cross_shim.Sync.Scheduler.{blocking_operation, Host, save_thread_state, has_resume_pc, in_hle}
use cross_shim.Sync.Handover.{found}
use cross_shim.Sync.Recursive.{find_lookup}
use cross_shim.Sync.Switch.{is_voluntary, context_switch}
use cross_shim.Sync.Switch.Parking.{parked, switch-parked}

-- Two updates of the current thread.
twice-lookup :
    (s : ThreadManager) (c : ThreadContext) (f g : ThreadContext → ThreadContext)
    → lookup s.current_thread_id s.threads ≡ some c
    → lookup s.current_thread_id (update_current (update_current s f) g).threads ≡ some (g (f c))
twice-lookup s c f g at =
    update_current-lookup (update_current s f) s.current_thread_id (f c) g (update_current-id s f)
      (update_current-lookup s s.current_thread_id c f refl at)

-- What an update of the table leaves as it is.
abbrev pub processor : ThreadManager → ℕ × ℕ × ℕ × ℕ × ℕ
processor s = (s.current_thread_id, s.x0, s.lr, s.pc, s.others)

pub update_current-processor :
    (s : ThreadManager) (f : ThreadContext → ThreadContext)
    → processor (update_current s f) ≡ processor s
unfolding update_current
update_current-processor s f = elim (Option-cases (lookup s.current_thread_id s.threads)) [
  | inl e ↦ rw (update_current, e) refl
  | inr (c, e) ↦ rw (update_current, e) refl
]

twice-processor :
    (s : ThreadManager) (f g : ThreadContext → ThreadContext)
    → processor (update_current (update_current s f) g) ≡ processor s
twice-processor s f g =
    update_current-processor (update_current s f) g ∙ update_current-processor s f

-- The entry of a blocked thread with the registers of the processor, but for PC.
abbrev pub with_registers : ThreadContext → ℕ × ℕ × ℕ × ℕ × ℕ → ℕ → ThreadContext
with_registers c (t, x0, lr, pc, others) resume_pc = record c {
  pc = resume_pc;
  saved_x0 = x0;
  saved_lr = lr;
  others = others;
  block_next_switch = false;
}

pub parked-resume :
    (w : ThreadManager) (d : ThreadContext)
    → has_resume_pc d blocked ≡ true
    → parked w d ≡ with_registers d (processor w) d.pc
unfolding parked save_thread_state
parked-resume w d e = rw (e) refl

parked-plain :
    (w : ThreadManager) (d : ThreadContext)
    → has_resume_pc d blocked ≡ false
    → parked w d ≡ with_registers d (processor w) w.pc
unfolding parked save_thread_state
parked-plain w d e = rw (e) refl

-- The switch from a state with the same processor.
pub switch-lookup :
    (hosts : ℕ → Host) (s w : ThreadManager) (d : ThreadContext)
    → processor w ≡ processor s
    → lookup s.current_thread_id w.threads ≡ some d
    → d.state ≡ blocked
    → lookup s.current_thread_id (context_switch hosts w blocking_operation).threads
      ≡ some (parked w d)
unfolding is_voluntary
switch-lookup hosts s w d same at b =
    let id : w.current_thread_id ≡ s.current_thread_id = ap (λ (x : ℕ × ℕ × ℕ × ℕ × ℕ). x.0) same in
    let here = ap (λ (x : ℕ). lookup x w.threads) id ∙ at in
    ap (λ (x : ℕ). lookup x (context_switch hosts w blocking_operation).threads) (sym id)
    ∙ switch-parked hosts w blocking_operation d here b refl

module _ (hosts : ℕ → Host) (s : ThreadManager) (p : ℕ) (c : ThreadContext)
    (at : lookup s.current_thread_id s.threads ≡ some c) where
  -- The entry of a thread that waits for a mutex.
  abbrev waits_for_mutex : ThreadContext
  waits_for_mutex = record c {
    state = blocked;
    blocked_on_resource = p;
    mutex_wait_ptr = p;
    mutex_wait_return_addr = s.lr;
    pc = hle_base + 0xFFFEC;
  }

  wait-mutex_lookup :
      (m : EmulatedMutex)
      → lookup s.current_thread_id (wait_for_mutex s p s.lr m).threads ≡ some waits_for_mutex
  unfolding wait_for_mutex put_mutex block_current_thread
  wait-mutex_lookup m = twice-lookup _ c _ _ at

  wait-mutex_processor : (m : EmulatedMutex) → processor (wait_for_mutex s p s.lr m) ≡ processor s
  unfolding wait_for_mutex put_mutex block_current_thread
  wait-mutex_processor m = twice-processor _ _ _

  mutex_resumes : p ≢ 0 → has_resume_pc waits_for_mutex blocked ≡ true
  unfolding has_resume_pc in_hle
  mutex_resumes real = ground (arith, real)

  held_waits :
      (m : EmulatedMutex) (w : ℕ)
      → lookup p s.mutexes ≡ some m
      → m.is_locked ≡ true
      → m.owner_thread ≢ s.current_thread_id
      → (pthread_mutex_lock s p w).0 ≡ wait_for_mutex s p s.lr m
  unfolding pthread_mutex_lock
  held_waits m w e held other =
      let mine : (m.is_locked && ltb 0 m.lock_count && (m.owner_thread == s.current_thread_id))
          ≡ false =
        ground (arith, other) in
      let busy : not m.is_locked ≡ false = ground arith in rw (found s p m e, mine, busy) refl

  reader_waits :
      (l : EmulatedRwLock)
      → lookup p s.rwlocks ≡ some l
      → l.writer ≢ 0
      → (pthread_rwlock_rdlock s p).0 ≡ wait_to_read s p s.lr l
  unfolding pthread_rwlock_rdlock
  reader_waits l e taken =
      let held : (l.writer == 0) ≡ false = ground (arith, taken) in
      rw (find_lookup s p l e, held) refl

  -- The entry of a thread that waits to read.
  abbrev waits_to_read : ThreadContext
  waits_to_read = record c {
    state = blocked;
    blocked_on_resource = p;
    rwlock_rdlock_ptr = p;
    rwlock_rdlock_return_addr = s.lr;
    pc = hle_base + 0xFFFD8;
  }

  wait-read_lookup :
      (l : EmulatedRwLock)
      → lookup s.current_thread_id (wait_to_read s p s.lr l).threads ≡ some waits_to_read
  unfolding wait_to_read put_rwlock block_current_thread
  wait-read_lookup l = twice-lookup _ c _ _ at

  wait-read_processor : (l : EmulatedRwLock) → processor (wait_to_read s p s.lr l) ≡ processor s
  unfolding wait_to_read put_rwlock block_current_thread
  wait-read_processor l = twice-processor _ _ _

  reader_loses :
      c.mutex_wait_ptr ≡ 0
      → c.cond_wait_mutex ≡ 0
      → c.join_target_thread ≡ 0
      → c.barrier_wait_ptr ≡ 0
      → c.futex_wait_addr ≡ 0
      → has_resume_pc waits_to_read blocked ≡ false
  unfolding has_resume_pc
  reader_loses a1 a2 a3 a4 a5 = ground arith

  -- A thread that locks a mutex which another thread holds, at an address that is not 0, and that
  -- `context_switch` then takes off the processor, is blocked on the mutex, has its registers saved
  -- but for PC, and will run the resume function, with the address to return to.
  pub lock_then_switch :
      (m : EmulatedMutex) (w : ℕ)
      → lookup p s.mutexes ≡ some m
      → m.is_locked ≡ true
      → m.owner_thread ≢ s.current_thread_id
      → p ≢ 0
      → lookup s.current_thread_id
          (context_switch hosts (pthread_mutex_lock s p w).0 blocking_operation).threads
        ≡ some (record c {
          state = blocked;
          blocked_on_resource = p;
          mutex_wait_ptr = p;
          mutex_wait_return_addr = s.lr;
          pc = hle_base + 0xFFFEC;
          saved_x0 = s.x0;
          saved_lr = s.lr;
          others = s.others;
          block_next_switch = false;
        })
  lock_then_switch m w e held other real =
      let w' = wait_for_mutex s p s.lr m in
      let same = wait-mutex_processor m in
      rw (held_waits m w e held other) (
        switch-lookup hosts s w' waits_for_mutex same (wait-mutex_lookup m) refl
        ∙ ap some (
            parked-resume w' waits_for_mutex (mutex_resumes real)
            ∙ ap (λ x. with_registers waits_for_mutex x waits_for_mutex.pc) same))

  -- A thread that asks to read a lock which a writer holds, and waits for nothing else, is blocked
  -- when `context_switch` has taken it off the processor, too, but with the PC of the processor as its
  -- saved PC: the address of the resume function, which the call had put there, is lost.
  pub rdlock_then_switch :
      (l : EmulatedRwLock)
      → lookup p s.rwlocks ≡ some l
      → l.writer ≢ 0
      → c.mutex_wait_ptr ≡ 0
      → c.cond_wait_mutex ≡ 0
      → c.join_target_thread ≡ 0
      → c.barrier_wait_ptr ≡ 0
      → c.futex_wait_addr ≡ 0
      → let waiting = (pthread_rwlock_rdlock s p).0 in
        (d : ThreadContext) × (lookup s.current_thread_id waiting.threads ≡ some d)
        × (d.pc ≡ hle_base + 0xFFFD8)
        × (lookup s.current_thread_id (context_switch hosts waiting blocking_operation).threads
            ≡ some (record d {
              pc = s.pc;
              saved_x0 = s.x0;
              saved_lr = s.lr;
              others = s.others;
              block_next_switch = false;
            }))
  rdlock_then_switch l e taken a1 a2 a3 a4 a5 =
      let w' = wait_to_read s p s.lr l in
      let same = wait-read_processor l in
      rw (reader_waits l e taken) (
        waits_to_read,
        wait-read_lookup l,
        refl,
        switch-lookup hosts s w' waits_to_read same (wait-read_lookup l) refl
            ∙ ap some (
                parked-plain w' waits_to_read (reader_loses a1 a2 a3 a4 a5)
                ∙ ap (λ (x : ℕ × ℕ × ℕ × ℕ × ℕ). with_registers waits_to_read x x.3) same),
      )
