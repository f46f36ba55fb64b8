-- ===== src/Sync/Switch/Parking.antt =====
-- What the switch leaves of a blocked thread.
use cross_shim.Base.{
  ℕ, zero, suc, ◌+◌, ◌≡◌, refl, Bool, true, false, ◌&&◌, not, Option, none, some, List, [], ◌∷◌,
  arith, ◌==◌, if◌then◌else◌, ap, ◌∙◌, Bool-cases, Option-cases, inl, inr,
}
use cross_shim.Container.Dict.{lookup, lookup-insert, lookup-insert_same}
use cross_shim.Sync.{ThreadManager, ThreadContext, blocked}
use cross_shim.Sync.Scheduler.{
  SwitchReason, Host, is_runnable, is_running, is_terminated, pop_runnable, has_slept, has_io,
  select_next_thread, save_thread_state, restore_thread_state, has_resume_pc,
}
use cross_shim.Sync.Switch.{
  is_voluntary, park, some_waiting, all_terminated, look_again, find_next_thread, run_thread, enter,
  stay, retry_select, switch_thread, context_switch,
}
use cross_shim.Sync.Scheduler.Rouse.{rouse, select-lookup}

-- The entry of a blocked thread.
abbrev pub Sleeps : ThreadManager → ℕ → ThreadContext → Type 0
Sleeps s t c = (lookup t s.threads ≡ some c) × (c.state ≡ blocked)

-- What is chosen is not that thread.
abbrev Spares : ℕ → Option ℕ → Type 0
Spares t next = (u : ℕ) → next ≡ some u → (u == t) ≡ false

rouse-blocked :
    (h : Host) (c : ThreadContext)
    → c.state ≡ blocked
    → rouse (λ c. has_io h c c.state) (rouse (λ c. has_slept h c c.state) (some c)) ≡ some c
unfolding has_io has_slept
rouse-blocked h c e = rw (e, has_slept, has_io) refl

apart :
    (m : List (ℕ × ThreadContext)) (u t : ℕ) (d c : ThreadContext)
    → lookup u m ≡ some d
    → lookup t m ≡ some c
    → is_runnable d.state ≡ true
    → is_runnable c.state ≡ false
    → (u == t) ≡ false
apart m u t d c e at ready idle = ground (arith, at, e, ready, idle)

pop-runnable :
    (m : List (ℕ × ThreadContext)) (q : List ℕ) (t : ℕ) (c : ThreadContext)
    → lookup t m ≡ some c
    → is_runnable c.state ≡ false
    → Spares t (pop_runnable m q).0
unfolding pop_runnable
pop-runnable m [] t c at not' u e = ground arith
pop-runnable m (v ∷ q) t c at not' u e = elim (Option-cases (lookup v m)) [
  | inl n ↦ pop-runnable m q t c at not' u (pop-none v n ∙ e)
  | inr (d, n) ↦ elim (Bool-cases (is_runnable d.state)) [
    | inl ready ↦
        let chosen : some v ≡ some u = pop-chosen v d n ready ∙ e in
        let at' : lookup u m ≡ some d = ground (arith, chosen, n) in
        apart m u t d c at' at ready not'
    | inr idle ↦ pop-runnable m q t c at not' u (pop-idle v d n idle ∙ e)
  ]
]
  where
    pop-none : (v : ℕ) → lookup v m ≡ none → (pop_runnable m q).0 ≡ (pop_runnable m (v ∷ q)).0
    pop-none v n = rw (pop_runnable, n) refl

    pop-chosen :
        (v : ℕ) (d : ThreadContext)
        → lookup v m ≡ some d
        → is_runnable d.state ≡ true
        → some v ≡ (pop_runnable m (v ∷ q)).0
    pop-chosen v d n ready = rw (pop_runnable, n, ready) refl

    pop-idle :
        (v : ℕ) (d : ThreadContext)
        → lookup v m ≡ some d
        → is_runnable d.state ≡ false
        → (pop_runnable m q).0 ≡ (pop_runnable m (v ∷ q)).0
    pop-idle v d n idle = rw (pop_runnable, n, idle) refl

select-Sleeps :
    (h : Host) (s : ThreadManager) (t : ℕ) (c : ThreadContext)
    → Sleeps s t c
    → Sleeps (select_next_thread h s).1 t c
select-Sleeps h s t c (at, b) = (
  select-lookup h s t
      ∙ ap (λ o. rouse (λ c. has_io h c c.state) (rouse (λ c. has_slept h c c.state) o)) at
      ∙ rouse-blocked h c b,
  b,
)

blocked-idle : (c : ThreadContext) → c.state ≡ blocked → is_runnable c.state ≡ false
unfolding is_runnable
blocked-idle c b = ap is_runnable b

select-Spares :
    (h : Host) (s : ThreadManager) (t : ℕ) (c : ThreadContext)
    → Sleeps s t c
    → Spares t (select_next_thread h s).0
unfolding select_next_thread is_runnable
select-Spares h s t c at =
    let (at', b) = select-Sleeps h s t c at in pop-runnable _ _ t c at' (blocked-idle c b)

run-Sleeps :
    (s : ThreadManager) (t u : ℕ) (c : ThreadContext)
    → Sleeps s t c
    → (u == t) ≡ false
    → Sleeps (run_thread s u) t c
unfolding run_thread restore_thread_state
run-Sleeps s t u c (at, b) diff = elim (Option-cases (lookup u s.threads)) [
  | inl e ↦ rw (run_thread, e) (at, b)
  | inr (d, e) ↦ rw (run_thread, e) (lookup-insert u t _ s.threads ∙ rw (diff) at, b)
]

retry-Sleeps :
    (hosts : ℕ → Host) (n : ℕ) (s : ThreadManager) (t : ℕ) (c : ThreadContext)
    → Sleeps s t c
    → Sleeps (retry_select hosts n s) t c
unfolding retry_select
retry-Sleeps hosts zero s t c at = at
retry-Sleeps hosts (suc n) s t c at =
    let h = hosts (2 + n) in
    let s' = (select_next_thread h s).1 in
    let at' = select-Sleeps h s t c at in
    elim (Option-cases (select_next_thread h s).0) [
      | inl e ↦ rw (retry_select, e) (retry-Sleeps hosts n s' t c at')
      | inr (u, e) ↦ rw (retry_select, e) (run-Sleeps s' t u c at' (select-Spares h s t c at u e))
    ]

stay-Sleeps :
    (hosts : ℕ → Host) (s : ThreadManager) (t : ℕ) (c d : ThreadContext)
    → Sleeps s t c
    → lookup s.current_thread_id s.threads ≡ some d
    → Sleeps (stay hosts s d) t c
unfolding stay
stay-Sleeps hosts s t c d (at, b) e = elim (Bool-cases (is_terminated d.state)) [
  | inl ended ↦ elim (Bool-cases (all_terminated s.threads)) [
    | inl all ↦ rw (ended, all) (at, b)
    | inr alive ↦ rw (ended, alive) (retry-Sleeps hosts 10 s t c (at, b))
  ]
  | inr not' ↦ elim (Bool-cases (is_runnable d.state)) [
    | inl ready ↦
        let diff = apart s.threads s.current_thread_id t d c e at ready (blocked-idle c b) in
        rw (not', ready) (lookup-insert s.current_thread_id t _ s.threads ∙ rw (diff) at, b)
    | inr idle ↦ rw (not', idle) (at, b)
  ]
]

enter-Sleeps :
    (hosts : ℕ → Host) (r : Option ℕ × ThreadManager) (t : ℕ) (c : ThreadContext)
    → Sleeps r.1 t c
    → Spares t r.0
    → Sleeps (enter hosts r) t c
unfolding enter
enter-Sleeps hosts (some u, s) t c at spared = run-Sleeps s t u c at (spared u refl)
enter-Sleeps hosts (none, s) t c at spared =
    elim (Option-cases (lookup s.current_thread_id s.threads)) [
      | inl e ↦ rw (enter, e) at
      | inr (d, e) ↦ rw (enter, e) (stay-Sleeps hosts s t c d at e)
    ]

again-Sleeps :
    (hosts : ℕ → Host) (r : Option ℕ × ThreadManager) (t : ℕ) (c : ThreadContext)
    → Sleeps r.1 t c
    → Spares t r.0
    → Sleeps (look_again hosts r).1 t c × Spares t (look_again hosts r).0
unfolding look_again
again-Sleeps hosts (some u, s) t c at spared = (at, spared)
again-Sleeps hosts (none, s) t c at spared = elim (Bool-cases (some_waiting s.threads)) [
  | inl e ↦ rw (look_again, e) (select-Sleeps (hosts 1) s t c at, select-Spares (hosts 1) s t c at)
  | inr e ↦ rw (look_again, e) (at, spared)
]

-- A switch leaves a blocked thread as it is.
switch-Sleeps :
    (hosts : ℕ → Host) (s : ThreadManager) (t : ℕ) (c : ThreadContext)
    → Sleeps s t c
    → Sleeps (switch_thread hosts s) t c
unfolding switch_thread find_next_thread
switch-Sleeps hosts s t c at =
    let first = select_next_thread (hosts 0) s in
    let (at', spared) =
      again-Sleeps hosts first t c (select-Sleeps (hosts 0) s t c at)
        (select-Spares (hosts 0) s t c at) in
    enter-Sleeps hosts (look_again hosts first) t c at' spared

-- A thread that has blocked and switches keeps its entry but for the registers, which are those of
-- the processor; the saved PC stays if it is the address of a resume function by `has_resume_pc`.
unfoldable pub parked : ThreadManager → ThreadContext → ThreadContext
unfolding save_thread_state has_resume_pc
parked s c =
    let saved = save_thread_state s (record c { block_next_switch = false }) in
    if has_resume_pc c blocked then record saved { pc = c.pc } else saved

either-blocked :
    (b : Bool) (x y : ThreadContext)
    → x.state ≡ blocked
    → y.state ≡ blocked
    → (if b then x else y).state ≡ blocked
either-blocked true x y e f = e
either-blocked false x y e f = f

park-Sleeps :
    (s : ThreadManager) (c : ThreadContext)
    → c.state ≡ blocked
    → Sleeps (park s c) s.current_thread_id (parked s c)
unfolding park parked save_thread_state has_resume_pc is_running
park-Sleeps s c b =
    rw (b) (lookup-insert_same s.current_thread_id _ s.threads, either-blocked _ _ _ refl refl)

-- What the switch of a blocked thread leaves of it.
pub switch-parked :
    (hosts : ℕ → Host) (s : ThreadManager) (reason : SwitchReason) (c : ThreadContext)
    → lookup s.current_thread_id s.threads ≡ some c
    → c.state ≡ blocked
    → is_voluntary reason ≡ true
    → lookup s.current_thread_id (context_switch hosts s reason).threads ≡ some (parked s c)
unfolding context_switch
switch-parked hosts s reason c e b voluntary =
    let goes : (c.block_next_switch && not (is_voluntary reason)) ≡ false = ground arith in
    rw (context_switch, e, goes)
      (switch-Sleeps hosts (park s c) s.current_thread_id (parked s c) (park-Sleeps s c b)).0
