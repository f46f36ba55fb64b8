-- ===== src/Sync/Thread/Join.antt =====
-- The value that a thread ends with reaches the one that joins it.
use cross_shim.Base.{
  ℕ, ◌+◌, ◌≡◌, ◌≢◌, refl, true, false, none, some, List, [], ◌∷◌, ◌++◌, arith, ◌==◌, if◌then◌else◌,
  ap, ◌∙◌, sym, Option-cases, inl, inr,
}
use cross_shim.Container.Dict
use cross_shim.Container.Dict.{lookup, lookup-insert, lookup-insert_same, lookup-erase}
use cross_shim.Sync.{
  ThreadManager, ThreadContext, returns, switches, blocked, terminated, hle_base, is_blocked,
  update_current, block_current_thread, unblock_thread_internal, unblock_all, finish,
}
use cross_shim.Sync.Wake.{
  woken, unblock-lookup, unblock-runnable_queue, update_current-lookup, update_current-id,
}
use cross_shim.Sync.Keys.Isolation.{on_thread}
use cross_shim.Sync.Scheduler.{is_terminated}
use cross_shim.Sync.Thread.{wait_to_join, collect, pthread_join, pthread_join_resume, pthread_exit}

-- An update of the current thread leaves the others.
update_current-other :
    (s : ThreadManager) (f : ThreadContext → ThreadContext) (v : ℕ)
    → s.current_thread_id ≢ v
    → lookup v (update_current s f).threads ≡ lookup v s.threads
unfolding update_current
update_current-other s f v ne = elim (Option-cases (lookup s.current_thread_id s.threads)) [
  | inl e ↦ rw (update_current, e) refl
  | inr (c, e) ↦
      rw (update_current, e)
        (lookup-insert s.current_thread_id v (f c) s.threads ∙ ground (arith, ne))
]

module _ (s : ThreadManager) (v x1 : ℕ) (c d : ThreadContext)
    (at : lookup s.current_thread_id s.threads ≡ some c) (target : lookup v s.threads ≡ some d)
    (apart : s.current_thread_id ≢ v) where
  -- The entries of the two threads while the one waits for the other.
  abbrev joiner : ThreadContext
  joiner = record c {
    state = blocked;
    blocked_on_resource = v;
    join_target_thread = v;
    join_retval_ptr = x1;
    join_return_addr = s.lr;
    pc = hle_base + 0xFFFF8;
  }

  abbrev joined : ThreadContext
  joined = record d { join_wait_queue = d.join_wait_queue ++ s.current_thread_id ∷ [] }

  queued-lookup : lookup s.current_thread_id (Dict.insert v joined s.threads) ≡ some c
  queued-lookup = lookup-insert v s.current_thread_id joined s.threads ∙ ground (arith, apart, at)

  wait-joiner : lookup s.current_thread_id (wait_to_join s v d x1).threads ≡ some joiner
  unfolding wait_to_join block_current_thread
  wait-joiner =
      let s' = record s { threads = Dict.insert v joined s.threads } in
      update_current-lookup (update_current s' _) s.current_thread_id _ _ (update_current-id s' _)
        (update_current-lookup s' s.current_thread_id c _ refl queued-lookup)

  wait-joined : lookup v (wait_to_join s v d x1).threads ≡ some joined
  unfolding wait_to_join block_current_thread
  wait-joined =
      let s' = record s { threads = Dict.insert v joined s.threads } in
      update_current-other (update_current s' _) _ v (λ e. apart (sym (update_current-id s' _) ∙ e))
      ∙ update_current-other s' _ v apart
      ∙ lookup-insert_same v joined s.threads

  join-waits :
      d.detached ≡ false
      → is_terminated d.state ≡ false
      → pthread_join s v x1 ≡ (wait_to_join s v d x1, switches, none)
  unfolding pthread_join
  join-waits attached alive = rw (pthread_join, target, attached, alive) refl

-- The end of a thread that one other thread waits for.
module _ (s : ThreadManager) (t v value : ℕ) (c d : ThreadContext)
    (waits : lookup t s.threads ≡ some c) (asleep : is_blocked c.state ≡ true)
    (ends : lookup v s.threads ≡ some d) (queue : d.join_wait_queue ≡ t ∷ []) (apart : t ≢ v) where
  abbrev ended : ThreadContext
  ended = record d { return_value = value; state = terminated; join_wait_queue = [] }

  abbrev without : ThreadManager
  without = record s { current_thread_id = v; threads = Dict.insert v ended s.threads }

  exit-one : (pthread_exit (on_thread s v) value).0 ≡ unblock_thread_internal without t
  unfolding pthread_exit unblock_all
  exit-one = rw (pthread_exit, ends, queue, unblock_all) refl

  still : lookup t without.threads ≡ some c
  still = lookup-insert v t ended s.threads ∙ ground (arith, apart, waits)

  exit-joiner : lookup t (pthread_exit (on_thread s v) value).0.threads ≡ some (woken c)
  exit-joiner = rw (exit-one) (unblock-lookup without t t c still asleep ∙ ground arith)

  exit-target : lookup v (pthread_exit (on_thread s v) value).0.threads ≡ some ended
  exit-target = rw (exit-one) (
      unblock-lookup without t v c still asleep
      ∙ ground (arith, apart, lookup-insert_same v ended s.threads))

  exit-runnable_queue :
      (pthread_exit (on_thread s v) value).0.runnable_queue ≡ s.runnable_queue ++ t ∷ []
  exit-runnable_queue = rw (exit-one) (unblock-runnable_queue without t c still asleep)

-- The thread that joins goes on.
resume-collects :
    (s : ThreadManager) (c d : ThreadContext)
    → lookup s.current_thread_id s.threads ≡ some c
    → lookup c.join_target_thread s.threads ≡ some d
    → s.current_thread_id ≢ c.join_target_thread
    → is_terminated d.state ≡ true
    → let (s', out, written) = pthread_join_resume s in
      (out ≡ returns 0)
      × (s'.lr ≡ c.join_return_addr)
      × (lookup c.join_target_thread s'.threads ≡ none)
      × (written
          ≡ (if c.join_retval_ptr == 0 then none else some (c.join_retval_ptr, d.return_value)))
unfolding pthread_join_resume collect finish
resume-collects s c d at target apart ended =
    let cleared = record c { join_target_thread = 0; join_retval_ptr = 0; join_return_addr = 0 } in
    let threads = Dict.insert s.current_thread_id cleared s.threads in
    let found : lookup c.join_target_thread threads ≡ some d =
      lookup-insert s.current_thread_id c.join_target_thread cleared s.threads
      ∙ ground (arith, apart, target) in
    rw (pthread_join_resume, at, found, collect, ended)
      (
        refl,
        refl,
        lookup-erase c.join_target_thread c.join_target_thread threads ∙ ground arith,
        refl,
      )

-- A thread that joins another one, which is not detached, has not ended and has no other thread that
-- waits for it, is switched away. When the other one then ends with a value, the joiner becomes
-- runnable, last in the queue, and when it runs again the call returns 0 to the caller's address, the
-- value is written at the pointer that was in X1, unless this is 0, and the ended thread is gone.
pub join_gets_value :
    (s : ThreadManager) (v x1 value : ℕ) (c d : ThreadContext)
    → lookup s.current_thread_id s.threads ≡ some c
    → lookup v s.threads ≡ some d
    → s.current_thread_id ≢ v
    → d.detached ≡ false
    → is_terminated d.state ≡ false
    → d.join_wait_queue ≡ []
    → let (s1, joined, stored) = pthread_join s v x1 in
      let s2 = (pthread_exit (on_thread s1 v) value).0 in
      let (s3, out, written) = pthread_join_resume (on_thread s2 s.current_thread_id) in
      (joined ≡ switches)
      × (stored ≡ none)
      × (s2.runnable_queue ≡ s1.runnable_queue ++ s.current_thread_id ∷ [])
      × (out ≡ returns 0)
      × (s3.lr ≡ s.lr)
      × (lookup v s3.threads ≡ none)
      × (written ≡ (if x1 == 0 then none else some (x1, value)))
unfolding is_blocked is_terminated
join_gets_value s v x1 value c d at target apart attached alive empty =
    let t = s.current_thread_id in
    let s1 = wait_to_join s v d x1 in
    let c1 = joiner s v x1 c d at target apart in
    let d1 = joined s v x1 c d at target apart in
    let waits = wait-joiner s v x1 c d at target apart in
    let ends = wait-joined s v x1 c d at target apart in
    let queue : d1.join_wait_queue ≡ t ∷ [] = ap (λ (q : List ℕ). q ++ t ∷ []) empty in
    let s2 = (pthread_exit (on_thread s1 v) value).0 in
    let here = exit-joiner s1 t v value c1 d1 waits refl ends queue apart in
    let gone = exit-target s1 t v value c1 d1 waits refl ends queue apart in
    let (out, back, erased, written) =
      resume-collects (on_thread s2 t) (woken c1) _ here gone apart refl in
    rw (join-waits s v x1 c d at target apart attached alive) (
      refl,
      refl,
      exit-runnable_queue s1 t v value c1 d1 waits refl ends queue apart,
      out,
      back,
      erased,
      written,
    )
