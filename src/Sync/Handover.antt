-- ===== src/Sync/Handover.antt =====
-- What a mutex does when it is held, and to whom it goes when it is released.
use cross_shim.Base.{
  ℕ, ◌≡◌, ◌≢◌, refl, true, false, ◌&&◌, ◌||◌, ◌++◌, not, some, List, [], ◌∷◌, arith, ltb, ◌==◌, ap,
  ◌∙◌,
}
use cross_shim.Container.Dict.{lookup, lookup-insert}
use cross_shim.Sync.{
  ThreadManager, ThreadContext, EmulatedMutex, returns, switches, blocked, unblock_thread_internal,
  is_blocked,
}
use cross_shim.Sync.Mutex.{
  put_mutex, find_mutex, release_mutex, unlock_found, pthread_mutex_lock, pthread_mutex_unlock,
}
use cross_shim.Sync.Exclusion.{queued, wait-mutexes}

module _ (s : ThreadManager) (p : ℕ) (m : EmulatedMutex) (e : lookup p s.mutexes ≡ some m) where
  pub found : (k : ℕ) → find_mutex s p k ≡ m
  unfolding find_mutex
  found k = rw (e, find_mutex) refl

  -- A thread that locks a mutex which another thread holds does not get it: the call ends in
  -- `context_switch`, and the mutex stays as it was but for its queue, which the thread enters if
  -- it is not there.
  pub lock_held :
      (w : ℕ)
      → m.is_locked ≡ true
      → m.owner_thread ≢ s.current_thread_id
      → let out = pthread_mutex_lock s p w in
        (out.1 ≡ switches) × (lookup p out.0.mutexes ≡ some (queued s m))
  unfolding pthread_mutex_lock
  lock_held w held other =
      let mine : (m.is_locked && ltb 0 m.lock_count && (m.owner_thread == s.current_thread_id))
          ≡ false =
        ground (arith, other) in
      let busy : not m.is_locked ≡ false = ground arith in
      rw (found, mine, busy)
        (
          refl,
          ap (lookup p) (wait-mutexes s p s.lr m)
              ∙ ground (arith, lookup-insert p p (queued s m) s.mutexes),
        )

  -- The release of a mutex with the count 1 that threads wait for returns 0 and makes it free; the
  -- thread that has waited longest leaves its queue and, being blocked, becomes the last in the
  -- queue of runnable threads.
  pub unlock_wakes :
      (w : ℕ) (q : List ℕ) (t : ThreadContext)
      → m.is_locked ≡ true
      → m.lock_count ≡ 1
      → m.wait_queue ≡ w ∷ q
      → lookup w s.threads ≡ some t
      → t.state ≡ blocked
      → let out = pthread_mutex_unlock s p in
        let free = record m {
          is_locked = false;
          owner_thread = 0;
          lock_count = 0;
          wait_queue = q;
        } in
        (out.1 ≡ returns 0)
        × (lookup p out.0.mutexes ≡ some free)
        × (out.0.runnable_queue ≡ s.runnable_queue ++ w ∷ [])
  unfolding pthread_mutex_unlock unlock_found release_mutex unblock_thread_internal put_mutex
      is_blocked
  unlock_wakes w q t held once queue at asleep =
      let free = record m { is_locked = false; owner_thread = 0; lock_count = 0; wait_queue = q } in
      let ok : (not m.is_locked || (m.lock_count == 0)) ≡ false = ground arith in
      let last : (m.lock_count == 1) ≡ true = ground arith in
      rw (pthread_mutex_unlock, e, ok, last, queue, unblock_thread_internal, at, asleep)
        (refl, ground (arith, lookup-insert p p free s.mutexes), refl)
