-- ===== src/Sync/Wake.antt =====
-- Waking the threads of a queue.
use cross_shim.Base.{
  ℕ, ◌≡◌, refl, true, false, Option, none, some, List, [], ◌∷◌, ◌++◌, arith, ◌==◌, if◌then◌else◌,
  ap, ◌∙◌, sym, Bool-cases, Option-cases, inl, inr,
}
use mathlib.Core.List.{append_assoc, append-nil}
use cross_shim.Container.Dict
use cross_shim.Container.Dict.{lookup, lookup-insert, lookup-insert_same}
use cross_shim.Sync.{
  ThreadManager, ThreadContext, update_current, block_current_thread, unblock_thread_internal,
  unblock_all, contains, is_blocked, runnable,
}

-- Every thread of the queue is in the table and blocked, and is in the queue once.
abbrev pub Asleep : ThreadManager → List ℕ → Type 0
Asleep s [] = Unit {0}
Asleep s (t ∷ q) =
    (c : ThreadContext) × (lookup t s.threads ≡ some c)
    × (is_blocked c.state ≡ true)
    × (contains t q ≡ false)
    × Asleep s q

abbrev pub woken : ThreadContext → ThreadContext
woken t = record t { state = runnable; blocked_on_resource = 0 }

abbrev pub awaken : Option ThreadContext → Option ThreadContext
awaken none = none
awaken (some t) = some (woken t)

pub unblock-runnable_queue :
    (s : ThreadManager) (t : ℕ) (c : ThreadContext)
    → lookup t s.threads ≡ some c
    → is_blocked c.state ≡ true
    → (unblock_thread_internal s t).runnable_queue ≡ s.runnable_queue ++ t ∷ []
unfolding unblock_thread_internal
unblock-runnable_queue s t c at asleep = rw (unblock_thread_internal, at, asleep) refl

pub unblock-lookup :
    (s : ThreadManager) (t u : ℕ) (c : ThreadContext)
    → lookup t s.threads ≡ some c
    → is_blocked c.state ≡ true
    → lookup u (unblock_thread_internal s t).threads
      ≡ (if t == u then some (woken c) else lookup u s.threads)
unfolding unblock_thread_internal
unblock-lookup s t u c at asleep =
    rw (unblock_thread_internal, at, asleep) (lookup-insert t u (woken c) s.threads)

unblock-Asleep :
    (s : ThreadManager) (t : ℕ) (c : ThreadContext) (q : List ℕ)
    → lookup t s.threads ≡ some c
    → is_blocked c.state ≡ true
    → contains t q ≡ false
    → Asleep s q
    → Asleep (unblock_thread_internal s t) q
unfolding contains
unblock-Asleep s t c [] at asleep out rest = tt
unblock-Asleep s t c (u ∷ q) at asleep out (d, at', asleep', once, rest) =
    let other : (t == u) ≡ false = ground arith in
    let out' : contains t q ≡ false = ground arith in
    (
      d,
      unblock-lookup s t u c at asleep ∙ ground (arith, other, at'),
      asleep',
      once,
      unblock-Asleep s t c q at asleep out' rest,
    )

pub unblock_all-runnable_queue :
    (s : ThreadManager) (q : List ℕ)
    → Asleep s q
    → (unblock_all s q).runnable_queue ≡ s.runnable_queue ++ q
unfolding unblock_all
unblock_all-runnable_queue s [] rest = sym (append-nil s.runnable_queue)
unblock_all-runnable_queue s (t ∷ q) (c, at, asleep, once, rest) =
    let s' = unblock_thread_internal s t in
    unblock_all-runnable_queue s' q (unblock-Asleep s t c q at asleep once rest)
    ∙ ap (λ (x : List ℕ). x ++ q) (unblock-runnable_queue s t c at asleep)
    ∙ append_assoc s.runnable_queue (t ∷ []) q

pub unblock_all-lookup :
    (s : ThreadManager) (q : List ℕ) (u : ℕ)
    → Asleep s q
    → lookup u (unblock_all s q).threads
      ≡ (if contains u q then awaken (lookup u s.threads) else lookup u s.threads)
unfolding unblock_all contains
unblock_all-lookup s [] u rest = refl
unblock_all-lookup s (t ∷ q) u (c, at, asleep, once, rest) =
    let s' = unblock_thread_internal s t in
    unblock_all-lookup s' q u (unblock-Asleep s t c q at asleep once rest)
    ∙ ground (arith, unblock-lookup s t u c at asleep, at)

pub unblock-barriers :
    (s : ThreadManager) (t : ℕ) → (unblock_thread_internal s t).barriers ≡ s.barriers
unfolding unblock_thread_internal
unblock-barriers s t = ground arith

pub unblock_all-barriers :
    (s : ThreadManager) (q : List ℕ) → (unblock_all s q).barriers ≡ s.barriers
unfolding unblock_all
unblock_all-barriers s [] = refl
unblock_all-barriers s (t ∷ q) =
    unblock_all-barriers (unblock_thread_internal s t) q ∙ unblock-barriers s t

pub update_current-barriers :
    (s : ThreadManager) (f : ThreadContext → ThreadContext)
    → (update_current s f).barriers ≡ s.barriers
unfolding update_current
update_current-barriers s f = ground arith

pub block-barriers : (s : ThreadManager) (p : ℕ) → (block_current_thread s p).barriers ≡ s.barriers
unfolding block_current_thread
block-barriers s p = update_current-barriers s _

pub awake-lookup :
    (s : ThreadManager) (w t : ℕ) (c : ThreadContext)
    → lookup t s.threads ≡ some c
    → is_blocked c.state ≡ false
    → lookup t (unblock_thread_internal s w).threads ≡ some c
unfolding unblock_thread_internal
awake-lookup s w t c at awake = elim (Option-cases (lookup w s.threads)) [
  | inl e ↦ rw (unblock_thread_internal, e) at
  | inr (d, e) ↦ elim (Bool-cases (is_blocked d.state)) [
    | inl b ↦ rw (unblock_thread_internal, e, b) (lookup-insert w t _ s.threads ∙ ground arith)
    | inr b ↦ rw (unblock_thread_internal, e, b) at
  ]
]

pub awake-runnable_queue :
    (s : ThreadManager) (t : ℕ) (c : ThreadContext)
    → lookup t s.threads ≡ some c
    → is_blocked c.state ≡ false
    → (unblock_thread_internal s t).runnable_queue ≡ s.runnable_queue
unfolding unblock_thread_internal
awake-runnable_queue s t c at awake = rw (unblock_thread_internal, at, awake) refl

module _ (s : ThreadManager) where
  pub update_current-lookup :
      (t : ℕ) (c : ThreadContext) (f : ThreadContext → ThreadContext)
      → s.current_thread_id ≡ t
      → lookup t s.threads ≡ some c
      → lookup t (update_current s f).threads ≡ some (f c)
  unfolding update_current
  update_current-lookup t c f id at =
      let here : lookup s.current_thread_id s.threads ≡ some c =
        ap (λ (x : ℕ). lookup x s.threads) id ∙ at in
      rw (update_current, here)
        (ap (λ (x : ℕ). lookup t (Dict.insert x (f c) s.threads)) id
          ∙ lookup-insert_same t (f c) s.threads)

  pub update_current-id :
      (f : ThreadContext → ThreadContext)
      → (update_current s f).current_thread_id ≡ s.current_thread_id
  unfolding update_current
  update_current-id f = ground arith

  pub update_current-condvars :
      (f : ThreadContext → ThreadContext) → (update_current s f).condvars ≡ s.condvars
  unfolding update_current
  update_current-condvars f = ground arith
