-- ===== src/Sync/Cond/Keeping.antt =====
-- What the release of a mutex, and the waking of a thread, leave as they are.
use cross_shim.Base.{
  ℕ, ◌≡◌, refl, false, ◌||◌, not, some, List, [], ◌∷◌, arith, ◌==◌, Bool-cases, Option-cases, inl,
  inr,
}
use cross_shim.Container.Dict.{lookup}
use cross_shim.Sync.{
  ThreadManager, ThreadContext, EmulatedMutex, is_blocked, unblock_thread_internal,
}
use cross_shim.Sync.Mutex.{pthread_mutex_unlock, unlock_found, release_mutex, put_mutex}
use cross_shim.Sync.Wake.{awake-lookup}

-- What a release of a mutex leaves as it is.
abbrev pub Keeps : ThreadManager → ThreadManager → Type 0
Keeps s s' =
    (s'.current_thread_id ≡ s.current_thread_id)
    × (s'.condvars ≡ s.condvars)
    × ((t : ℕ) (c : ThreadContext)
        → lookup t s.threads ≡ some c
        → is_blocked c.state ≡ false
        → lookup t s'.threads ≡ some c)

pub unblock-Keeps : (s : ThreadManager) (w : ℕ) → Keeps s (unblock_thread_internal s w)
unfolding unblock_thread_internal
unblock-Keeps s w = (ground arith, ground arith, awake-lookup s w)

release-Keeps :
    (s : ThreadManager) (p : ℕ) (m : EmulatedMutex) (q : List ℕ) → Keeps s (release_mutex s p m q)
unfolding release_mutex put_mutex
release-Keeps s p m [] = (refl, refl, λ t c at awake. at)
release-Keeps s p m (w ∷ q) = unblock-Keeps _ w

found-Keeps : (s : ThreadManager) (p : ℕ) (m : EmulatedMutex) → Keeps s (unlock_found s p m).0
unfolding unlock_found put_mutex
found-Keeps s p m = elim (Bool-cases (not m.is_locked || (m.lock_count == 0))) [
  | inl e ↦ rw (e) (refl, refl, λ t c at awake. at)
  | inr e ↦ elim (Bool-cases (m.lock_count == 1)) [
    | inl once ↦ rw (e, once) (release-Keeps s p _ m.wait_queue)
    | inr more ↦ rw (e, more) (refl, refl, λ t c at awake. at)
  ]
]

pub unlock-Keeps : (s : ThreadManager) (p : ℕ) → Keeps s (pthread_mutex_unlock s p).0
unfolding pthread_mutex_unlock unlock_found put_mutex
unlock-Keeps s p = elim (Option-cases (lookup p s.mutexes)) [
  | inl e ↦ rw (pthread_mutex_unlock, e) (refl, refl, λ t c at awake. at)
  | inr (m, e) ↦ rw (pthread_mutex_unlock, e) (found-Keeps s p m)
]
