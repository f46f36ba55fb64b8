-- ===== src/Sync/Cond/Waking.antt =====
-- Whom a signal and a broadcast wake.
use cross_shim.Base.{
  ℕ, ◌+◌, ◌*◌, ◌^◌, ◌≡◌, refl, true, false, none, some, List, [], ◌∷◌, ◌++◌, arith, if◌then◌else◌,
  ap, ◌∙◌,
}
use cross_shim.Container.Dict.{lookup, lookup-insert_same}
use cross_shim.Sync.{
  ThreadManager, ThreadContext, returns, runnable, sleeping, blocked, is_blocked, hle_base,
  update_current, block_current_thread, unblock_thread_internal, unblock_all, contains,
}
use cross_shim.Sync.Mutex.{pthread_mutex_unlock}
use cross_shim.Sync.Wake.{
  Asleep, awaken, unblock_all-runnable_queue, unblock_all-lookup, unblock-runnable_queue,
  unblock-lookup, woken, update_current-lookup, update_current-id, update_current-condvars,
  awake-lookup, awake-runnable_queue,
}
use cross_shim.Sync.Keys.Isolation.{on_thread}
use cross_shim.Sync.Cond.{
  put_cond, find_cond, join_cond, signal_queue, pthread_cond_wait, pthread_cond_timedwait,
  pthread_cond_signal, pthread_cond_broadcast,
}
use cross_shim.Sync.Cond.Keeping.{unblock-Keeps, unlock-Keeps}

put-find_cond : (s : ThreadManager) (ptr : ℕ) (q : List ℕ) → find_cond (put_cond s ptr q) ptr ≡ q
unfolding find_cond put_cond
put-find_cond s ptr q = rw (lookup-insert_same ptr q s.condvars, find_cond) refl

-- A broadcast to a condition variable whose waiting threads are blocked, each once in its queue,
-- returns 0 and empties the queue; these threads become runnable, in the order of the queue, and the
-- other threads stay as they are.
pub broadcast_wakes :
    (s : ThreadManager) (ptr : ℕ) (q : List ℕ)
    → lookup ptr s.condvars ≡ some q
    → Asleep s q
    → let (s', out) = pthread_cond_broadcast s ptr in
      (out ≡ returns 0)
      × (find_cond s' ptr ≡ [])
      × (s'.runnable_queue ≡ s.runnable_queue ++ q)
      × ((u : ℕ)
          → lookup u s'.threads
            ≡ (if contains u q then awaken (lookup u s.threads) else lookup u s.threads))
unfolding pthread_cond_broadcast put_cond
broadcast_wakes s ptr q e asleep =
    rw (pthread_cond_broadcast, e)
      (
        refl,
        put-find_cond (unblock_all s q) ptr [],
        unblock_all-runnable_queue s q asleep,
        λ u. unblock_all-lookup s q u asleep,
      )

queue_in : ℕ → List (ℕ × List ℕ) → List ℕ
queue_in ptr m = elim (lookup ptr m) [ none ↦ [] | some queue ↦ queue ]

blocked_lem : is_blocked blocked ≡ true
unfolding is_blocked
blocked_lem = refl

sleeping_lem : is_blocked sleeping ≡ false
unfolding is_blocked
sleeping_lem = refl

module _ (s : ThreadManager) (ptr mutex : ℕ) where
  -- The states in which the two waits leave the thread that runs.
  abbrev queued : ThreadManager
  queued = join_cond s ptr

  -- What the table and the condition variable hold when the wait hands the processor over.
  abbrev pub Waits : ThreadManager → ThreadContext → Type 0
  Waits s' c =
      (lookup s.current_thread_id s'.threads ≡ some c)
      × (lookup ptr s'.condvars ≡ some (s.current_thread_id ∷ []))

  -- The entry of the thread when the wait hands the processor over.
  pub wait-lookup :
      (c : ThreadContext)
      → lookup s.current_thread_id s.threads ≡ some c
      → is_blocked c.state ≡ false
      → lookup s.current_thread_id (pthread_cond_wait s ptr mutex).0.threads
        ≡ some (record c {
          state = blocked;
          blocked_on_resource = ptr;
          cond_wait_mutex = mutex;
          cond_wait_return_addr = s.lr;
          pc = hle_base + 0xFFFF4;
        })
  unfolding pthread_cond_wait block_current_thread
  wait-lookup c at awake =
      let saved = update_current queued (λ t. record t {
        cond_wait_mutex = mutex;
        cond_wait_return_addr = s.lr;
        pc = hle_base + 0xFFFF4;
      }) in
      let (same, conds, kept) = unlock-Keeps saved mutex in
      let here = update_current-lookup queued s.current_thread_id c _ refl at in
      let id = same ∙ update_current-id queued _ in
      update_current-lookup (pthread_mutex_unlock saved mutex).0 s.current_thread_id _ _ id
        (kept s.current_thread_id _ here awake)

  module _ (c : ThreadContext) (at : lookup s.current_thread_id s.threads ≡ some c)
      (awake : is_blocked c.state ≡ false) (empty : find_cond s ptr ≡ []) where
    queued-condvars : lookup ptr queued.condvars ≡ some (s.current_thread_id ∷ [])
    unfolding join_cond put_cond
    queued-condvars = rw (empty) (lookup-insert_same ptr _ _)

    wait-Waits : Waits (pthread_cond_wait s ptr mutex).0 (record c {
      state = blocked;
      blocked_on_resource = ptr;
      cond_wait_mutex = mutex;
      cond_wait_return_addr = s.lr;
      pc = hle_base + 0xFFFF4;
    })
    unfolding pthread_cond_wait block_current_thread
    wait-Waits =
        let saved = update_current queued (λ t. record t {
          cond_wait_mutex = mutex;
          cond_wait_return_addr = s.lr;
          pc = hle_base + 0xFFFF4;
        }) in
        let (same, conds, kept) = unlock-Keeps saved mutex in
        (
          wait-lookup c at awake,
          ap (lookup ptr) (update_current-condvars _ _ ∙ conds ∙ update_current-condvars queued _)
              ∙ queued-condvars,
        )

    timedwait-Waits :
        (sec nsec : ℕ)
        → Waits
            (pthread_cond_timedwait s ptr mutex sec nsec).0
            (record c { state = sleeping; sleep_until = sec * 10 ^ 9 + nsec })
    unfolding pthread_cond_timedwait
    timedwait-Waits sec nsec =
        let (same, conds, kept) = unlock-Keeps queued mutex in
        (
          update_current-lookup (pthread_mutex_unlock queued mutex).0 s.current_thread_id c _ same
              (kept s.current_thread_id c at awake),
          ap (lookup ptr) (update_current-condvars _ _ ∙ conds) ∙ queued-condvars,
        )

module _ (s : ThreadManager) (ptr t : ℕ) (c : ThreadContext)
    (queue : lookup ptr s.condvars ≡ some (t ∷ [])) (here : lookup t s.threads ≡ some c) where
  signal-alone :
      pthread_cond_signal s ptr ≡ (unblock_thread_internal (put_cond s ptr []) t, returns 0)
  unfolding pthread_cond_signal find_cond signal_queue
  signal-alone = rw (queue, signal_queue) refl

  unblock-find_cond : find_cond (unblock_thread_internal (put_cond s ptr []) t) ptr ≡ []
  unfolding find_cond queue_in
  unblock-find_cond =
      let (id, conds, kept) = unblock-Keeps (put_cond s ptr []) t in
      ap (λ (m : List (ℕ × List ℕ)). queue_in ptr m) conds ∙ put-find_cond s ptr []

  signal-blocked :
      is_blocked c.state ≡ true
      → let s' = (pthread_cond_signal s ptr).0 in
        (find_cond s' ptr ≡ [])
        × (s'.runnable_queue ≡ s.runnable_queue ++ t ∷ [])
        × (lookup t s'.threads ≡ some (woken c))
  unfolding put_cond
  signal-blocked asleep =
      let left = put_cond s ptr [] in
      rw (signal-alone) (
        unblock-find_cond,
        unblock-runnable_queue left t c here asleep,
        unblock-lookup left t t c here asleep ∙ ground arith,
      )

  signal-awake :
      is_blocked c.state ≡ false
      → let s' = (pthread_cond_signal s ptr).0 in
        (find_cond s' ptr ≡ [])
        × (s'.runnable_queue ≡ s.runnable_queue)
        × (lookup t s'.threads ≡ some c)
  unfolding put_cond
  signal-awake awake =
      let left = put_cond s ptr [] in
      rw (signal-alone) (
        unblock-find_cond,
        awake-runnable_queue left t c here awake,
        awake-lookup left t t c here awake,
      )

module _ (s : ThreadManager) (ptr mutex u : ℕ) (c : ThreadContext)
    (at : lookup s.current_thread_id s.threads ≡ some c) (awake : is_blocked c.state ≡ false)
    (empty : find_cond s ptr ≡ []) where
  -- The thread that runs, which is in the table and not blocked, waits on a condition variable that
  -- nobody waits on, and some thread signals it before anything else happens: the queue is empty
  -- again, and the thread is runnable, last in the queue of runnable threads, and its entry has the
  -- address of the resume function, the mutex to lock and the address to return to.
  pub signal_wakes :
      let waited = (pthread_cond_wait s ptr mutex).0 in
      let s' = (pthread_cond_signal (on_thread waited u) ptr).0 in
      (find_cond s' ptr ≡ [])
      × (s'.runnable_queue ≡ waited.runnable_queue ++ s.current_thread_id ∷ [])
      × (lookup s.current_thread_id s'.threads
          ≡ some (record c {
            state = runnable;
            blocked_on_resource = 0;
            cond_wait_mutex = mutex;
            cond_wait_return_addr = s.lr;
            pc = hle_base + 0xFFFF4;
          }))
  signal_wakes =
      let waited = on_thread (pthread_cond_wait s ptr mutex).0 u in
      let (here, queue) = wait-Waits s ptr mutex c at awake empty in
      signal-blocked waited ptr s.current_thread_id _ queue here blocked_lem

  -- After a timed wait in the same state a signal empties the queue, too, but it wakes nobody: the
  -- thread sleeps on until its deadline, and no thread becomes runnable.
  pub signal_passes_timed :
      (sec nsec : ℕ)
      → let waited = (pthread_cond_timedwait s ptr mutex sec nsec).0 in
        let s' = (pthread_cond_signal (on_thread waited u) ptr).0 in
        (find_cond s' ptr ≡ [])
        × (s'.runnable_queue ≡ waited.runnable_queue)
        × (lookup s.current_thread_id s'.threads
            ≡ some (record c { state = sleeping; sleep_until = sec * 10 ^ 9 + nsec }))
  signal_passes_timed sec nsec =
      let waited = on_thread (pthread_cond_timedwait s ptr mutex sec nsec).0 u in
      let (here, queue) = timedwait-Waits s ptr mutex c at awake empty sec nsec in
      signal-awake waited ptr s.current_thread_id _ queue here sleeping_lem
