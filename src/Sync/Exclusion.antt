-- ===== src/Sync/Exclusion.antt =====
-- Mutual exclusion of the mutexes, over any sequence of calls by any threads.
use cross_shim.Base.{
  ℕ, suc, ◌+◌, ◌-◌, ◌/◌, ◌%◌, ◌^◌, ◌<◌, ◌≡◌, refl, true, false, ◌&&◌, ◌||◌, not, some, List, [],
  ◌∷◌, ◌⊎◌, inl, inr, arith, ltb, ◌==◌, if◌then◌else◌, Bool-cases, Option-cases, ap, ◌∙◌, sym,
}
use cross_shim.Container.Dict
use cross_shim.Container.Dict.{lookup, lookup-insert, lookup-erase}
use cross_shim.Sync.{
  finish, ThreadManager, ThreadContext, EmulatedMutex, Outcome, enqueue, update_current,
  block_current_thread, unblock_thread_internal,
}
use cross_shim.Sync.Mutex.{
  new_mutex, put_mutex, find_mutex, taken, wait_for_mutex, retry, release_mutex, unlock_found,
  pthread_mutex_init, pthread_mutex_destroy, pthread_mutex_lock, pthread_mutex_lock_resume,
  pthread_mutex_trylock, pthread_mutex_unlock,
}

-- A mutex is held by one thread, at least once, or by none.
abbrev pub MutexValid : EmulatedMutex → Type 0
MutexValid m =
    ((m.is_locked ≡ true) × (0 < m.owner_thread) × (0 < m.lock_count))
    ⊎ ((m.is_locked ≡ false) × (m.owner_thread ≡ 0) × (m.lock_count ≡ 0))

abbrev pub MutexesValid : ThreadManager → Type 0
MutexesValid s = (p : ℕ) (m : EmulatedMutex) → lookup p s.mutexes ≡ some m → MutexValid m

update_current-mutexes :
    (s : ThreadManager) (f : ThreadContext → ThreadContext)
    → (update_current s f).mutexes ≡ s.mutexes
unfolding update_current
update_current-mutexes s f = ground arith

unblock-mutexes : (s : ThreadManager) (t : ℕ) → (unblock_thread_internal s t).mutexes ≡ s.mutexes
unfolding unblock_thread_internal
unblock-mutexes s t = ground arith

abbrev pub queued : ThreadManager → EmulatedMutex → EmulatedMutex
queued s m = record m { wait_queue = enqueue s.current_thread_id m.wait_queue }

pub wait-mutexes :
    (s : ThreadManager) (p r : ℕ) (m : EmulatedMutex)
    → (wait_for_mutex s p r m).mutexes ≡ Dict.insert p (queued s m) s.mutexes
unfolding wait_for_mutex block_current_thread put_mutex
wait-mutexes s p r m = update_current-mutexes _ _ ∙ update_current-mutexes _ _

-- Storing a valid mutex keeps the table valid.
insert-MutexesValid :
    (p : ℕ) (m : EmulatedMutex) (s g : ThreadManager)
    → MutexesValid s
    → MutexValid m
    → g.mutexes ≡ Dict.insert p m s.mutexes
    → MutexesValid g
insert-MutexesValid p m s g v w e r x f =
    let at = ap (lookup r) e ∙ lookup-insert p r m s.mutexes in ground (arith, at, v r x, w)

erase-MutexesValid :
    (p : ℕ) (s g : ThreadManager)
    → MutexesValid s
    → g.mutexes ≡ Dict.erase p s.mutexes
    → MutexesValid g
erase-MutexesValid p s g v e r x f =
    let at = ap (lookup r) e ∙ lookup-erase p r s.mutexes in ground (arith, at, v r x)

same-MutexesValid : (s g : ThreadManager) → MutexesValid s → g.mutexes ≡ s.mutexes → MutexesValid g
same-MutexesValid s g v e r x f = v r x (ap (lookup r) (sym e) ∙ f)

module _ (s : ThreadManager) (v : MutexesValid s) where
  find_mutex-MutexValid : (p k : ℕ) → MutexValid (find_mutex s p k)
  unfolding find_mutex new_mutex
  find_mutex-MutexValid p k = elim (Option-cases (lookup p s.mutexes)) [
    | inl e ↦ rw (e, find_mutex) (inr (refl, refl, refl))
    | inr (m, e) ↦ rw (e, find_mutex) (v p m e)
  ]

  put-MutexesValid : (p : ℕ) (m : EmulatedMutex) → MutexValid m → MutexesValid (put_mutex s p m)
  unfolding put_mutex
  put-MutexesValid p m w = insert-MutexesValid p m s (put_mutex s p m) v w refl

  wait-MutexesValid :
      (p r : ℕ) (m : EmulatedMutex) → MutexValid m → MutexesValid (wait_for_mutex s p r m)
  wait-MutexesValid p r m w =
      insert-MutexesValid p (queued s m) s (wait_for_mutex s p r m) v w (wait-mutexes s p r m)

  module _ (id : 0 < s.current_thread_id) where
    taken-MutexValid : (m : EmulatedMutex) → MutexValid (taken m s.current_thread_id)
    unfolding taken
    taken-MutexValid m = inl (refl, id, omega arith)

    lock-MutexesValid : (p w : ℕ) → MutexesValid (pthread_mutex_lock s p w).0
    unfolding pthread_mutex_lock
    lock-MutexesValid p w =
        let m = find_mutex s p (w / 2 ^ 14 % 4) in
        let valid = find_mutex-MutexValid p (w / 2 ^ 14 % 4) in
        elim (Bool-cases
          (m.is_locked && ltb 0 m.lock_count && (m.owner_thread == s.current_thread_id))) [
            | inl again ↦ rw again (
                put-MutexesValid p (record m { lock_count = m.lock_count + 1 })
                  (ground (arith, valid)))
            | inr other ↦ elim (Bool-cases (not m.is_locked)) [
              | inl free ↦
                  rw (other, free)
                    (put-MutexesValid p (taken m s.current_thread_id) (taken-MutexValid m))
              | inr held ↦ rw (other, held) (wait-MutexesValid p s.lr m valid)
            ]
          ]

    try-MutexesValid : (p : ℕ) → MutexesValid (pthread_mutex_trylock s p).0
    unfolding pthread_mutex_trylock
    try-MutexesValid p =
        let m = find_mutex s p 0 in
        let valid = find_mutex-MutexValid p 0 in
        elim (Bool-cases ((m.owner_thread == s.current_thread_id) && ltb 0 m.lock_count)) [
          | inl mine ↦ elim (Bool-cases (m.kind == 1)) [
            | inl again ↦
                rw (mine, again)
                  (put-MutexesValid p (record m { lock_count = m.lock_count + 1 })
                    (ground (arith, valid)))
            | inr busy ↦ rw (mine, busy) (put-MutexesValid p m valid)
          ]
          | inr other ↦ elim (Bool-cases (not m.is_locked)) [
            | inl free ↦
                rw (other, free)
                  (put-MutexesValid p (taken m s.current_thread_id) (taken-MutexValid m))
            | inr held ↦ rw (other, held) (put-MutexesValid p m valid)
          ]
        ]

    retry-MutexesValid : (p r : ℕ) → MutexesValid (retry s p r).0
    unfolding retry finish
    retry-MutexesValid p r = elim (Option-cases (lookup p s.mutexes)) [
      | inl e ↦ rw (retry, e) v
      | inr (m, e) ↦ elim (Bool-cases (not m.is_locked)) [
        | inl free ↦
            rw (retry, e, free)
              (put-MutexesValid p (taken m s.current_thread_id) (taken-MutexValid m))
        | inr held ↦ rw (retry, e, held) (wait-MutexesValid p r m (v p m e))
      ]
    ]

  release-MutexesValid :
      (p : ℕ) (m : EmulatedMutex) (q : List ℕ) → MutexValid m → MutexesValid (release_mutex s p m q)
  unfolding release_mutex
  release-MutexesValid p m [] w = put-MutexesValid p m w
  release-MutexesValid p m (t ∷ q) w =
      let s' = put_mutex s p (record m { wait_queue = q }) in
      same-MutexesValid s' (unblock_thread_internal s' t)
        (put-MutexesValid p (record m { wait_queue = q }) w) (unblock-mutexes s' t)

  unlock_found-MutexesValid :
      (p : ℕ) (m : EmulatedMutex) → MutexValid m → MutexesValid (unlock_found s p m).0
  unfolding unlock_found
  unlock_found-MutexesValid p m w = elim (Bool-cases (not m.is_locked || (m.lock_count == 0))) [
    | inl bad ↦ rw bad v
    | inr ok ↦ elim (Bool-cases (m.lock_count == 1)) [
      | inl last ↦
          rw (ok, last)
            (release-MutexesValid p
              (record m { is_locked = false; owner_thread = 0; lock_count = 0 }) m.wait_queue
              (inr (refl, refl, refl)))
      | inr more ↦
          rw (ok, more)
            (put-MutexesValid p (record m { lock_count = m.lock_count - 1 }) (ground (arith, w)))
    ]
  ]

  unlock-MutexesValid : (p : ℕ) → MutexesValid (pthread_mutex_unlock s p).0
  unfolding pthread_mutex_unlock
  unlock-MutexesValid p = elim (Option-cases (lookup p s.mutexes)) [
    | inl e ↦ rw (pthread_mutex_unlock, e) v
    | inr (m, e) ↦ rw (pthread_mutex_unlock, e) (unlock_found-MutexesValid p m (v p m e))
  ]

pub data MutexCall : Type 0 where
  inits : ℕ → ℕ → ℕ → MutexCall
  destroys : ℕ → MutexCall
  locks : ℕ → ℕ → MutexCall
  resumes : MutexCall
  tries : ℕ → MutexCall
  unlocks : ℕ → MutexCall

-- The thread `t + 1` runs.
abbrev pub as_thread : ThreadManager → ℕ → ThreadManager
as_thread s t = record s { current_thread_id = suc t }

-- A call by the thread `t + 1`: thread ids start at 1.
pub call : ThreadManager → ℕ → MutexCall → ThreadManager × Outcome
call s t (inits p attr kind) = pthread_mutex_init (as_thread s t) p attr kind
call s t (destroys p) = pthread_mutex_destroy (as_thread s t) p
call s t (locks p w) = pthread_mutex_lock (as_thread s t) p w
call s t resumes = pthread_mutex_lock_resume (as_thread s t)
call s t (tries p) = pthread_mutex_trylock (as_thread s t) p
call s t (unlocks p) = pthread_mutex_unlock (as_thread s t) p

pub run_mutexes : ThreadManager → List (ℕ × MutexCall) → ThreadManager
run_mutexes s [] = s
run_mutexes s ((t, c) ∷ cs) = run_mutexes (call s t c).0 cs

resume-MutexesValid :
    (s : ThreadManager)
    → MutexesValid s
    → 0 < s.current_thread_id
    → MutexesValid (pthread_mutex_lock_resume s).0
unfolding pthread_mutex_lock_resume
resume-MutexesValid s v id = elim (Option-cases (lookup s.current_thread_id s.threads)) [
  | inl e ↦ rw (pthread_mutex_lock_resume, e) v
  | inr (t, e) ↦
      let cleared = record t { mutex_wait_ptr = 0; mutex_wait_return_addr = 0 } in
      let s' = record s { threads = Dict.insert s.current_thread_id cleared s.threads } in
      rw (pthread_mutex_lock_resume, e)
        (retry-MutexesValid s' v id t.mutex_wait_ptr t.mutex_wait_return_addr)
]

call-MutexesValid :
    (s : ThreadManager) (t : ℕ) (c : MutexCall) → MutexesValid s → MutexesValid (call s t c).0
unfolding call pthread_mutex_init pthread_mutex_destroy new_mutex
call-MutexesValid s t (inits p attr kind) v =
    put-MutexesValid (as_thread s t) v p (new_mutex (if attr == 0 then 0 else kind))
      (inr (refl, refl, refl))
call-MutexesValid s t (destroys p) v =
    erase-MutexesValid p s (pthread_mutex_destroy (as_thread s t) p).0 v refl
call-MutexesValid s t (locks p w) v = lock-MutexesValid (as_thread s t) v (omega arith) p w
call-MutexesValid s t resumes v = resume-MutexesValid (as_thread s t) v (omega arith)
call-MutexesValid s t (tries p) v = try-MutexesValid (as_thread s t) v (omega arith) p
call-MutexesValid s t (unlocks p) v = unlock-MutexesValid (as_thread s t) v p

-- From valid mutexes, after any sequence of calls by any threads, in any interleaving, every mutex
-- is held by one thread with a positive count, or is free with no owner and the count 0.
pub run-MutexesValid :
    (s : ThreadManager) (cs : List (ℕ × MutexCall))
    → MutexesValid s
    → MutexesValid (run_mutexes s cs)
unfolding run_mutexes
run-MutexesValid s [] v = v
run-MutexesValid s ((t, c) ∷ cs) v = run-MutexesValid (call s t c).0 cs (call-MutexesValid s t c v)
