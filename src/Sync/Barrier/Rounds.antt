-- ===== src/Sync/Barrier/Rounds.antt =====
-- A barrier over any sequence of arrivals: its counters against the number of arrivals.
use cross_shim.Base.{
  ℕ, suc, ◌+◌, ◌*◌, ◌%◌, ◌<◌, ◌≡◌, refl, true, false, some, List, [], ◌∷◌, ◌++◌, length,
  length-append, arith, leb, ◌==◌, if◌then◌else◌, ap, ◌∙◌, sym, subst, Bool-cases, inl, inr,
}
use mathlib.Core.List.{append_assoc, append-nil}
use native.Mathlib.Nat.{suc-mul}
use cross_shim.Container.Dict.{lookup, lookup-insert_same}
use cross_shim.Sync.{ThreadManager, EmulatedBarrier, returns, switches, unblock_all, contains}
use cross_shim.Sync.Wake.{
  Asleep, awaken, unblock_all-runnable_queue, unblock_all-lookup, block-barriers,
}
use cross_shim.Sync.Keys.Isolation.{on_thread}
use cross_shim.Sync.Barrier.{
  new_barrier, put_barrier, find_barrier, release_barrier, wait_at_barrier, serial_thread, u32_mod,
  pthread_barrier_init, pthread_barrier_wait,
}

-- The threads arrive one after the other.
unfoldable pub arrivals : ThreadManager → ℕ → List ℕ → ThreadManager
arrivals s ptr [] = s
arrivals s ptr (t ∷ ts) = arrivals (pthread_barrier_wait (on_thread s t) ptr).0 ptr ts

-- What a barrier for `c` threads holds after some threads have arrived: the first of them made
-- rounds of `c`, and the others, fewer than `c`, wait in its queue.
abbrev pub Counts : ℕ → List ℕ → EmulatedBarrier → Type 0
Counts c arrived b =
    (b.count ≡ c)
    × (b.waiting < c)
    × (length b.wait_queue ≡ b.waiting)
    × (earlier : List ℕ) × (rounds : ℕ) × (arrived ≡ earlier ++ b.wait_queue)
    × (length earlier ≡ rounds * c)
    × (b.generation ≡ rounds % u32_mod)

abbrev Holds : ThreadManager → ℕ → ℕ → List ℕ → Type 0
Holds s ptr c arrived =
    (b : EmulatedBarrier) × (lookup ptr s.barriers ≡ some b) × Counts c arrived b

abbrev one_more : EmulatedBarrier → EmulatedBarrier
one_more b = record b { waiting = (b.waiting + 1) % u32_mod }

grow : (b : EmulatedBarrier) (t : ℕ) → length (b.wait_queue ++ t ∷ []) ≡ length b.wait_queue + 1
grow b t = length-append b.wait_queue (t ∷ [])

-- The last of a round arrives.
full :
    (c rounds waiting t : ℕ) (arrived earlier queue : List ℕ)
    → arrived ≡ earlier ++ queue
    → length earlier ≡ rounds * c
    → length queue ≡ waiting
    → waiting + 1 ≡ c
    → length (arrived ++ t ∷ []) ≡ suc rounds * c
full c rounds waiting t arrived earlier queue all whole len last =
    let behind : length (arrived ++ t ∷ []) ≡ length arrived + 1 = length-append arrived (t ∷ []) in
    let parts : length arrived ≡ length earlier + length queue =
      ap length all ∙ length-append earlier queue in
    omega (arith, suc-mul rounds c)

module _ (s : ThreadManager) (ptr : ℕ) where
  release-lookup :
      (b : EmulatedBarrier)
      → lookup ptr (release_barrier s ptr b).barriers
        ≡ some
            (record b { waiting = 0; generation = (b.generation + 1) % u32_mod; wait_queue = [] })
  unfolding release_barrier put_barrier
  release-lookup b = lookup-insert_same ptr _ (unblock_all s b.wait_queue).barriers

  wait-lookup :
      (b : EmulatedBarrier)
      → lookup ptr (wait_at_barrier s ptr b).barriers
        ≡ some (record b { wait_queue = b.wait_queue ++ s.current_thread_id ∷ [] })
  unfolding wait_at_barrier put_barrier
  wait-lookup b = ap (lookup ptr) (block-barriers _ ptr) ∙ lookup-insert_same ptr _ _

  found : (b : EmulatedBarrier) → lookup ptr s.barriers ≡ some b → find_barrier s ptr ≡ b
  unfolding find_barrier
  found b e = rw (e, find_barrier) refl

  -- One arrival, of the thread that runs.
  arrive-Holds :
      (c : ℕ) (arrived : List ℕ)
      → c < u32_mod
      → Holds s ptr c arrived
      → Holds (pthread_barrier_wait s ptr).0 ptr c (arrived ++ s.current_thread_id ∷ [])
  unfolding pthread_barrier_wait
  arrive-Holds c arrived small (b, e, (count, lt, len, earlier, rounds, all, whole, gen)) =
      let t = s.current_thread_id in
      let step : (b.waiting + 1) % u32_mod ≡ b.waiting + 1 = omega arith in
      elim (Bool-cases (leb b.count ((b.waiting + 1) % u32_mod))) [
        | inl last ↦
            rw (found b e, last)
              (
                _,
                release-lookup (one_more b),
                (
                  count,
                  omega arith,
                  refl,
                  arrived ++ t ∷ [],
                  suc rounds,
                  sym (append-nil (arrived ++ t ∷ [])),
                  full c rounds b.waiting t arrived earlier b.wait_queue all whole len
                      (ground arith),
                  omega arith,
                ),
              )
        | inr more ↦
            rw (found b e, more)
              (
                _,
                wait-lookup (one_more b),
                (
                  count,
                  ground arith,
                  grow b t ∙ omega arith,
                  earlier,
                  rounds,
                  ap (λ (x : List ℕ). x ++ t ∷ []) all ∙ append_assoc earlier b.wait_queue (t ∷ []),
                  whole,
                  gen,
                ),
              )
      ]

  -- How an arrival ends.
  arrive_outcome :
      (b : EmulatedBarrier)
      → lookup ptr s.barriers ≡ some b
      → b.waiting < b.count
      → b.count < u32_mod
      → (pthread_barrier_wait s ptr).1
        ≡ (if b.waiting + 1 == b.count then returns serial_thread else switches)
  unfolding pthread_barrier_wait
  arrive_outcome b e lt small = elim (Bool-cases (b.waiting + 1 == b.count)) [
    | inl last ↦
        let full' : leb b.count ((b.waiting + 1) % u32_mod) ≡ true = ground arith in
        rw (found b e, full', last) refl
    | inr more ↦
        let open' : leb b.count ((b.waiting + 1) % u32_mod) ≡ false = ground arith in
        rw (found b e, open', more) refl
  ]

arrivals-Holds :
    (s : ThreadManager) (ptr c : ℕ) (arrived ts : List ℕ)
    → c < u32_mod
    → Holds s ptr c arrived
    → Holds (arrivals s ptr ts) ptr c (arrived ++ ts)
unfolding arrivals
arrivals-Holds s ptr c arrived [] small h =
    subst (λ x. Holds s ptr c x) (sym (append-nil arrived)) h
arrivals-Holds s ptr c arrived (t ∷ ts) small h =
    let s' = (pthread_barrier_wait (on_thread s t) ptr).0 in
    subst (λ x. Holds (arrivals s' ptr ts) ptr c x) (append_assoc arrived (t ∷ []) ts)
      (arrivals-Holds s' ptr c (arrived ++ t ∷ []) ts small
        (arrive-Holds (on_thread s t) ptr c arrived small h))

init-Holds :
    (s : ThreadManager) (ptr c : ℕ) → 0 < c → Holds (pthread_barrier_init s ptr c).0 ptr c []
unfolding pthread_barrier_init put_barrier
init-Holds s ptr c pos =
    let some' : (c == 0) ≡ false = ground arith in
    rw (pthread_barrier_init, some')
      (
        new_barrier c,
        lookup-insert_same ptr _ s.barriers,
        (refl, pos, refl, [], 0, refl, omega arith, refl),
      )

-- A barrier that was initialised for c threads, 0 < c < 2^32, and at which any sequence of threads
-- has arrived counts c and splits the sequence in two: its first threads make up whole rounds of c,
-- as many as the generation says, modulo 2^32, and the others, fewer than c, are the barrier's queue,
-- in the order in which they came, and its count of waiting threads. The next arrival, by whatever
-- thread, returns PTHREAD_BARRIER_SERIAL_THREAD if it completes a round of c, and waits if not.
pub barrier_rounds :
    (s : ThreadManager) (ptr c : ℕ) (ts : List ℕ)
    → 0 < c
    → c < u32_mod
    → let s' = arrivals (pthread_barrier_init s ptr c).0 ptr ts in
      (b : EmulatedBarrier) × (lookup ptr s'.barriers ≡ some b)
      × Counts c ts b
      × ((t : ℕ)
          → (pthread_barrier_wait (on_thread s' t) ptr).1
            ≡ (if b.waiting + 1 == c then returns serial_thread else switches))
barrier_rounds s ptr c ts pos small =
    let s' = arrivals (pthread_barrier_init s ptr c).0 ptr ts in
    let (b, e, (count, lt, len, earlier, rounds, all, whole, gen)) =
      arrivals-Holds _ ptr c [] ts small (init-Holds s ptr c pos) in
    (
      b,
      e,
      (count, lt, len, earlier, rounds, all, whole, gen),
      λ t.
          arrive_outcome (on_thread s' t) ptr b e (omega arith) (omega arith)
          ∙ ap (λ (x : ℕ). if b.waiting + 1 == x then returns serial_thread else switches) count,
    )

-- The arrival that completes a round, where the threads of the queue are blocked and each is in it
-- once, empties the barrier, makes these threads runnable, in the order of the queue, and leaves the
-- other threads as they are.
pub barrier_releases :
    (s : ThreadManager) (ptr : ℕ) (b : EmulatedBarrier)
    → lookup ptr s.barriers ≡ some b
    → b.waiting + 1 ≡ b.count
    → b.count < u32_mod
    → Asleep s b.wait_queue
    → let (s', out) = pthread_barrier_wait s ptr in
      (out ≡ returns serial_thread)
      × (s'.runnable_queue ≡ s.runnable_queue ++ b.wait_queue)
      × ((u : ℕ)
          → lookup u s'.threads
            ≡ (if contains u b.wait_queue then awaken (lookup u s.threads) else lookup u s.threads))
      × (lookup ptr s'.barriers
          ≡ some (record b {
            waiting = 0;
            generation = (b.generation + 1) % u32_mod;
            wait_queue = [];
          }))
unfolding pthread_barrier_wait release_barrier put_barrier
barrier_releases s ptr b e last small asleep =
    let full' : leb b.count ((b.waiting + 1) % u32_mod) ≡ true = ground arith in
    rw (found s ptr b e, full')
      (
        refl,
        unblock_all-runnable_queue s b.wait_queue asleep,
        λ u. unblock_all-lookup s b.wait_queue u asleep,
        lookup-insert_same ptr _ _,
      )
