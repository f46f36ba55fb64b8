-- ===== src/Sync/Switch/Running.antt =====
-- Which threads have the state RUNNING.
use cross_shim.Base.{
  ℕ, zero, suc, ◌+◌, ◌≡◌, refl, Bool, true, false, ◌&&◌, not, Option, none, some, List, ◌⊎◌, inl,
  inr, arith, ◌==◌, if◌then◌else◌, ap, ◌∙◌, Bool-cases, Option-cases,
}
use cross_shim.Container.Dict
use cross_shim.Container.Dict.{lookup, lookup-insert}
use cross_shim.Sync.{ThreadManager, ThreadContext}
use cross_shim.Sync.Scheduler.{
  SwitchReason, Host, is_running, is_runnable, is_terminated, select_next_thread, save_thread_state,
  restore_thread_state,
}
use cross_shim.Sync.Switch.{
  is_voluntary, park, some_waiting, all_terminated, look_again, find_next_thread, run_thread, enter,
  stay, retry_select, switch_thread, context_switch,
}
use cross_shim.Sync.Scheduler.Rouse.{rouse, select-lookup}

abbrev pub running_at : Option ThreadContext → Bool
running_at none = false
running_at (some c) = is_running c.state

-- At most the current thread runs.
abbrev pub OneRuns : ThreadManager → Type 0
OneRuns s = (t : ℕ) → (running_at (lookup t s.threads) ≡ false) ⊎ (t ≡ s.current_thread_id)

-- While the scheduler looks for a thread nobody runs.
abbrev NoneRuns : ThreadManager → Type 0
NoneRuns s = (t : ℕ) → running_at (lookup t s.threads) ≡ false

-- What a change of one entry leaves.
insert-running_at :
    (k t : ℕ) (c : ThreadContext) (m : List (ℕ × ThreadContext))
    → running_at (lookup t m) ≡ false
    → (running_at (lookup t (Dict.insert k c m)) ≡ false) ⊎ (t ≡ k)
insert-running_at k t c m e = elim (Bool-cases (k == t)) [
  | inl same ↦ inr (ground arith)
  | inr diff ↦ inl (ap running_at (lookup-insert k t c m) ∙ rw (diff) e)
]

rouse-running_at :
    (test : ThreadContext → Bool) (o : Option ThreadContext)
    → running_at o ≡ false
    → running_at (rouse test o) ≡ false
unfolding is_running
rouse-running_at test none e = refl
rouse-running_at test (some c) e = elim (Bool-cases (test c)) [
  | inl ready ↦ rw (ready) refl
  | inr not' ↦ rw (not') e
]

select-NoneRuns : (h : Host) (s : ThreadManager) → NoneRuns s → NoneRuns (select_next_thread h s).1
select-NoneRuns h s idle t =
    ap running_at (select-lookup h s t)
    ∙ rouse-running_at _ _ (rouse-running_at _ (lookup t s.threads) (idle t))

again-NoneRuns :
    (hosts : ℕ → Host) (r : Option ℕ × ThreadManager)
    → NoneRuns r.1
    → NoneRuns (look_again hosts r).1
unfolding look_again
again-NoneRuns hosts (some t, s) idle = idle
again-NoneRuns hosts (none, s) idle = elim (Bool-cases (some_waiting s.threads)) [
  | inl e ↦ rw (look_again, e) (select-NoneRuns (hosts 1) s idle)
  | inr e ↦ rw (look_again, e) idle
]

run-OneRuns : (s : ThreadManager) (u : ℕ) → NoneRuns s → OneRuns (run_thread s u)
unfolding run_thread restore_thread_state
run-OneRuns s u idle = elim (Option-cases (lookup u s.threads)) [
  | inl e ↦ rw (run_thread, e) (λ t. inl (idle t))
  | inr (c, e) ↦ rw (run_thread, e) (λ t. insert-running_at u t _ s.threads (idle t))
]

retry-OneRuns :
    (hosts : ℕ → Host) (n : ℕ) (s : ThreadManager) → NoneRuns s → OneRuns (retry_select hosts n s)
unfolding retry_select
retry-OneRuns hosts zero s idle = λ t. inl (idle t)
retry-OneRuns hosts (suc n) s idle =
    let h = hosts (2 + n) in
    let idle' = select-NoneRuns h s idle in
    elim (Option-cases (select_next_thread h s).0) [
      | inl e ↦ rw (retry_select, e) (retry-OneRuns hosts n (select_next_thread h s).1 idle')
      | inr (u, e) ↦ rw (retry_select, e) (run-OneRuns (select_next_thread h s).1 u idle')
    ]

stay-OneRuns :
    (hosts : ℕ → Host) (s : ThreadManager) (c : ThreadContext)
    → NoneRuns s
    → OneRuns (stay hosts s c)
unfolding stay
stay-OneRuns hosts s c idle = elim (Bool-cases (is_terminated c.state)) [
  | inl ended ↦ elim (Bool-cases (all_terminated s.threads)) [
    | inl all ↦ rw (ended, all) (λ t. inl (idle t))
    | inr alive ↦ rw (ended, alive) (retry-OneRuns hosts 10 s idle)
  ]
  | inr not' ↦ elim (Bool-cases (is_runnable c.state)) [
    | inl ready ↦
        rw (not', ready) (λ t. insert-running_at s.current_thread_id t _ s.threads (idle t))
    | inr asleep ↦ rw (not', asleep) (λ t. inl (idle t))
  ]
]

enter-OneRuns :
    (hosts : ℕ → Host) (r : Option ℕ × ThreadManager) → NoneRuns r.1 → OneRuns (enter hosts r)
unfolding enter
enter-OneRuns hosts (some u, s) idle = run-OneRuns s u idle
enter-OneRuns hosts (none, s) idle = elim (Option-cases (lookup s.current_thread_id s.threads)) [
  | inl e ↦ rw (enter, e) (λ t. inl (idle t))
  | inr (c, e) ↦ rw (enter, e) (stay-OneRuns hosts s c idle)
]

switch-OneRuns :
    (hosts : ℕ → Host) (s : ThreadManager) → NoneRuns s → OneRuns (switch_thread hosts s)
unfolding switch_thread find_next_thread
switch-OneRuns hosts s idle =
    let first = select_next_thread (hosts 0) s in
    enter-OneRuns hosts (look_again hosts first)
      (again-NoneRuns hosts first (select-NoneRuns (hosts 0) s idle))

-- An entry that does not run, in place of the current thread's.
left-NoneRuns :
    (s : ThreadManager) (c : ThreadContext) (t : ℕ)
    → OneRuns s
    → is_running c.state ≡ false
    → running_at (lookup t (Dict.insert s.current_thread_id c s.threads)) ≡ false
left-NoneRuns s c t one e = elim (Bool-cases (s.current_thread_id == t)) [
  | inl same ↦ ap running_at (lookup-insert s.current_thread_id t c s.threads) ∙ rw (same) e
  | inr diff ↦
      ap running_at (lookup-insert s.current_thread_id t c s.threads)
      ∙ rw (diff) (ground (arith, one t, diff))
]

either-idle :
    (b : Bool) (x y : ThreadContext)
    → is_running x.state ≡ false
    → is_running y.state ≡ false
    → is_running (if b then x else y).state ≡ false
either-idle true x y e f = e
either-idle false x y e f = f

park-NoneRuns : (s : ThreadManager) (c : ThreadContext) → OneRuns s → NoneRuns (park s c)
unfolding park save_thread_state is_running
park-NoneRuns s c one t = elim (Bool-cases (is_running c.state)) [
  | inl runs ↦ rw (runs) (left-NoneRuns s _ t one refl)
  | inr idle ↦ rw (idle) (left-NoneRuns s _ t one (either-idle _ _ _ idle idle))
]

-- If at most the current thread runs, then so it is after a switch, whatever its reason and whatever
-- thread it chooses: no two threads run at once.
pub context_switch-OneRuns :
    (hosts : ℕ → Host) (s : ThreadManager) (reason : SwitchReason)
    → OneRuns s
    → OneRuns (context_switch hosts s reason)
unfolding context_switch
context_switch-OneRuns hosts s reason one =
    elim (Option-cases (lookup s.current_thread_id s.threads)) [
      | inl e ↦ rw (context_switch, e) one
      | inr (c, e) ↦ elim (Bool-cases (c.block_next_switch && not (is_voluntary reason))) [
        | inl refused ↦ rw (context_switch, e, refused) one
        | inr goes ↦
            rw (context_switch, e, goes) (switch-OneRuns hosts (park s c) (park-NoneRuns s c one))
      ]
    ]
