-- ===== src/Sync/Readers.antt =====
-- Readers and writers of the read-write locks, over any sequence of calls by any threads.
use cross_shim.Base.{ℕ, refl, List, [], ◌∷◌, inl}
use cross_shim.Sync.{ThreadManager, Outcome}
use cross_shim.Sync.RwLock.{
  new_rwlock, pthread_rwlock_init, pthread_rwlock_destroy, pthread_rwlock_rdlock,
  pthread_rwlock_rdlock_resume, pthread_rwlock_tryrdlock, pthread_rwlock_wrlock,
  pthread_rwlock_wrlock_resume, pthread_rwlock_trywrlock, pthread_rwlock_unlock,
}
use cross_shim.Sync.Sharing.{
  RwLocksValid, put-RwLocksValid, destroy-RwLocksValid, rdlock-RwLocksValid,
  read_resume-RwLocksValid, tryrdlock-RwLocksValid, wrlock-RwLocksValid, write_resume-RwLocksValid,
  trywrlock-RwLocksValid, unlock-RwLocksValid,
}

pub data RwCall : Type 0 where
  inits : ℕ → RwCall
  destroys : ℕ → RwCall
  reads : ℕ → RwCall
  resumes_read : RwCall
  tries_read : ℕ → RwCall
  writes : ℕ → RwCall
  resumes_write : RwCall
  tries_write : ℕ → RwCall
  unlocks : ℕ → RwCall

pub rw_call : ThreadManager → RwCall → ThreadManager × Outcome
rw_call s (inits p) = pthread_rwlock_init s p
rw_call s (destroys p) = pthread_rwlock_destroy s p
rw_call s (reads p) = pthread_rwlock_rdlock s p
rw_call s resumes_read = pthread_rwlock_rdlock_resume s
rw_call s (tries_read p) = pthread_rwlock_tryrdlock s p
rw_call s (writes p) = pthread_rwlock_wrlock s p
rw_call s resumes_write = pthread_rwlock_wrlock_resume s
rw_call s (tries_write p) = pthread_rwlock_trywrlock s p
rw_call s (unlocks p) = pthread_rwlock_unlock s p

-- Each call with the thread that makes it.
pub run_rwlocks : ThreadManager → List (ℕ × RwCall) → ThreadManager
run_rwlocks s [] = s
run_rwlocks s ((t, c) ∷ cs) = run_rwlocks (rw_call (record s { current_thread_id = t }) c).0 cs

call-RwLocksValid : (s : ThreadManager) (c : RwCall) → RwLocksValid s → RwLocksValid (rw_call s c).0
unfolding rw_call pthread_rwlock_init
call-RwLocksValid s (inits p) v = put-RwLocksValid s v p new_rwlock (inl refl)
call-RwLocksValid s (destroys p) v = destroy-RwLocksValid p s v
call-RwLocksValid s (reads p) v = rdlock-RwLocksValid s v p
call-RwLocksValid s resumes_read v = read_resume-RwLocksValid s v
call-RwLocksValid s (tries_read p) v = tryrdlock-RwLocksValid s v p
call-RwLocksValid s (writes p) v = wrlock-RwLocksValid s v p
call-RwLocksValid s resumes_write v = write_resume-RwLocksValid s v
call-RwLocksValid s (tries_write p) v = trywrlock-RwLocksValid s v p
call-RwLocksValid s (unlocks p) v = unlock-RwLocksValid s v p

-- From valid read-write locks, after any sequence of calls by any threads, in any interleaving,
-- none that has a writer has a reader.
pub run-RwLocksValid :
    (s : ThreadManager) (cs : List (ℕ × RwCall)) → RwLocksValid s → RwLocksValid (run_rwlocks s cs)
unfolding run_rwlocks
run-RwLocksValid s [] v = v
run-RwLocksValid s ((t, c) ∷ cs) v =
    let s' = record s { current_thread_id = t } in
    run-RwLocksValid (rw_call s' c).0 cs (call-RwLocksValid s' c v)
