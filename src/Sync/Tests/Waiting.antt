-- ===== src/Sync/Tests/Waiting.antt =====
-- The theorems of the keys, the condition variables and the barriers at concrete threads.
use cross_shim.Base.{ℕ, ◌≡◌, refl, false, some, [], ◌∷◌, ◌+◌, ◌==◌, if◌then◌else◌, arith}
use cross_shim.Container.Dict.{lookup}
use cross_shim.Sync.{ThreadManager, EmulatedBarrier, returns, switches, is_blocked, contains}
use cross_shim.Sync.Wake.{Asleep}
use cross_shim.Sync.Keys.Isolation.{on_thread}
use cross_shim.Sync.Cond.{find_cond}
use cross_shim.Sync.Barrier.{pthread_barrier_init, pthread_barrier_wait, serial_thread}
use cross_shim.Sync.Barrier.Rounds.{arrivals, Counts, barrier_rounds}
use cross_shim.Sync.Tests.{awake, waiting, threads, thread_found}

-- Thread 3 waits on a condition variable.
abbrev with_cond : ThreadManager
with_cond = record threads { condvars = (640, 3 ∷ []) ∷ [] }

queue-Asleep : Asleep with_cond (3 ∷ [])
unfolding is_blocked contains
queue-Asleep = (waiting, thread_found, refl, refl, tt)

cond_found : lookup 640 with_cond.condvars ≡ some (3 ∷ [])
unfolding lookup
cond_found = refl

current_found : lookup threads.current_thread_id threads.threads ≡ some awake
unfolding lookup
current_found = refl

current_awake : is_blocked awake.state ≡ false
unfolding is_blocked
current_awake = refl

nobody_waits : find_cond threads 640 ≡ []
unfolding find_cond lookup
nobody_waits = refl

barrier_rounds_example :
    let s' = arrivals (pthread_barrier_init threads 700 2).0 700 (1 ∷ 2 ∷ 3 ∷ []) in
    (b : EmulatedBarrier) × (lookup 700 s'.barriers ≡ some b)
    × Counts 2 (1 ∷ 2 ∷ 3 ∷ []) b
    × ((t : ℕ)
        → (pthread_barrier_wait (on_thread s' t) 700).1
          ≡ (if b.waiting + 1 == 2 then returns serial_thread else switches))
barrier_rounds_example = barrier_rounds threads 700 2 (1 ∷ 2 ∷ 3 ∷ []) (omega arith) (omega arith)

-- Thread 3 waits at a barrier for two.
abbrev two_meet : EmulatedBarrier
two_meet = record { count = 2; waiting = 1; generation = 4; wait_queue = 3 ∷ [] }

abbrev with_barrier : ThreadManager
with_barrier = record threads { barriers = (700, two_meet) ∷ [] }

barrier_found : lookup 700 with_barrier.barriers ≡ some two_meet
unfolding lookup
barrier_found = refl
