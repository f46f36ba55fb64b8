-- ===== src/Sync/Switch/Registers.antt =====
-- The registers of the threads over a switch.
use cross_shim.Base.{
  ℕ, ◌≡◌, refl, Bool, true, false, ◌&&◌, not, Option, none, some, List, arith, ◌==◌, if◌then◌else◌,
  ap, ◌∙◌, sym, Bool-cases, Option-cases, inl, inr,
}
use cross_shim.Container.Dict.{lookup, lookup-insert, lookup-insert_same}
use cross_shim.Sync.{ThreadManager, ThreadContext}
use cross_shim.Sync.Scheduler.{
  SwitchReason, Host, is_runnable, is_running, is_terminated, wake_pass, select_next_thread,
  save_thread_state, restore_thread_state,
}
use cross_shim.Sync.Switch.{
  is_voluntary, park, some_waiting, look_again, find_next_thread, run_thread, enter, stay,
  switch_thread, context_switch,
}
use cross_shim.Sync.Scheduler.Rouse.{rouse, select-lookup}

-- X0, LR, PC and the others.
abbrev pub Registers : Type 0
Registers = ℕ × ℕ × ℕ × ℕ

abbrev pub saved_in : ThreadContext → Registers
saved_in c = (c.saved_x0, c.saved_lr, c.pc, c.others)

abbrev pub saved_of : Option ThreadContext → Option Registers
saved_of none = none
saved_of (some c) = some (saved_in c)

-- The registers with which a thread goes on: the processor's, or those saved for it.
abbrev pub registers : ThreadManager → ℕ → Option Registers
registers s t =
    if t == s.current_thread_id
    then some (s.x0, s.lr, s.pc, s.others)
    else saved_of (lookup t s.threads)

rouse-saved_of :
    (test : ThreadContext → Bool) (o : Option ThreadContext) → saved_of (rouse test o) ≡ saved_of o
rouse-saved_of test none = refl
rouse-saved_of test (some c) = ground arith

dead : Option ThreadContext → Bool
dead none = false
dead (some c) = is_terminated c.state

rouse-dead :
    (test : ThreadContext → Bool) (o : Option ThreadContext)
    → dead o ≡ false
    → dead (rouse test o) ≡ false
unfolding dead is_terminated
rouse-dead test none alive = refl
rouse-dead test (some c) alive = elim (Bool-cases (test c)) [
  | inl e ↦ rw (e) refl
  | inr e ↦ rw (e) alive
]

select-saved_of :
    (h : Host) (s : ThreadManager) (t : ℕ)
    → saved_of (lookup t (select_next_thread h s).1.threads) ≡ saved_of (lookup t s.threads)
select-saved_of h s t =
    ap saved_of (select-lookup h s t) ∙ rouse-saved_of _ _ ∙ rouse-saved_of _ (lookup t s.threads)

select-dead :
    (h : Host) (s : ThreadManager) (t : ℕ)
    → dead (lookup t s.threads) ≡ false
    → dead (lookup t (select_next_thread h s).1.threads) ≡ false
select-dead h s t alive =
    ap dead (select-lookup h s t) ∙ rouse-dead _ _ (rouse-dead _ (lookup t s.threads) alive)

-- The current thread has not ended, and its registers are saved.
Settled : ThreadManager → Type 0
Settled s =
    (saved_of (lookup s.current_thread_id s.threads) ≡ some (s.x0, s.lr, s.pc, s.others))
    × (dead (lookup s.current_thread_id s.threads) ≡ false)

-- The second state comes from the first by looking for a thread.
Looked : ThreadManager → ThreadManager → Type 0
Looked s s' =
    ((t : ℕ) → saved_of (lookup t s'.threads) ≡ saved_of (lookup t s.threads)) × Settled s'

select-Looked : (h : Host) (s : ThreadManager) → Settled s → Looked s (select_next_thread h s).1
unfolding Looked Settled select_next_thread wake_pass
select-Looked h s (kept, alive) = (
  select-saved_of h s,
  (select-saved_of h s s.current_thread_id ∙ kept, select-dead h s s.current_thread_id alive),
)

-- The registers of the current thread are as saved, so the processor's may be read for them.
current-saved :
    (t u : ℕ) (m : List (ℕ × ThreadContext)) (r : Registers)
    → saved_of (lookup u m) ≡ some r
    → (if t == u then some r else saved_of (lookup t m)) ≡ saved_of (lookup t m)
current-saved t u m r e = elim (Bool-cases (t == u)) [
  | inl same ↦
      let at : t ≡ u = ground arith in
      rw (same) (sym e ∙ ap (λ (x : ℕ). saved_of (lookup x m)) (sym at))
  | inr diff ↦ rw (diff) refl
]

other :
    (t u : ℕ) (r : Registers) (d : ThreadContext) (m : List (ℕ × ThreadContext))
    → saved_of (lookup u m) ≡ some r
    → (if t == u then some r else saved_of (if u == t then some d else lookup t m))
      ≡ saved_of (lookup t m)
other t u r d m e = elim (Bool-cases (t == u)) [
  | inl same ↦
      let at : t ≡ u = ground arith in
      rw (same) (sym e ∙ ap (λ (x : ℕ). saved_of (lookup x m)) (sym at))
  | inr diff ↦ let diff' : (u == t) ≡ false = ground arith in rw (diff, diff') refl
]

find-Looked :
    (hosts : ℕ → Host) (s : ThreadManager) → Settled s → Looked s (find_next_thread hosts s).1
unfolding find_next_thread look_again Looked
find-Looked hosts s h =
    let (same, h') = select-Looked (hosts 0) s h in go (select_next_thread (hosts 0) s) (same, h')
  where
    go : (r : Option ℕ × ThreadManager) → Looked s r.1 → Looked s (look_again hosts r).1
    go (some t, s') l = l
    go (none, s') (same, h') = elim (Bool-cases (some_waiting s'.threads)) [
      | inl e ↦
          let (same', h2) = select-Looked (hosts 1) s' h' in
          rw (look_again, e) (λ t. same' t ∙ same t, h2)
      | inr e ↦ rw (look_again, e) (same, h')
    ]

run-registers :
    (s : ThreadManager) (u t : ℕ)
    → Settled s
    → registers (run_thread s u) t ≡ saved_of (lookup t s.threads)
unfolding run_thread restore_thread_state Settled
run-registers s u t h = elim (Option-cases (lookup u s.threads)) [
  | inl e ↦ rw (run_thread, e) (current-saved t s.current_thread_id s.threads _ h.0)
  | inr (c, e) ↦
      rw (run_thread, e)
        (ap (λ (o : Option ThreadContext). if t == u then some (saved_in c) else saved_of o)
            (lookup-insert u t _ s.threads)
          ∙ other t u (saved_in c) _ s.threads (ap saved_of e))
]

settled :
    (s : ThreadManager)
    → Settled s
    → (saved_of (lookup s.current_thread_id s.threads) ≡ some (s.x0, s.lr, s.pc, s.others))
      × (dead (lookup s.current_thread_id s.threads) ≡ false)
unfolding Settled
settled s h = h

park-Settled :
    (s : ThreadManager) (c : ThreadContext) → is_running c.state ≡ true → Settled (park s c)
unfolding park Settled save_thread_state dead is_terminated
park-Settled s c runs = rw (runs) (
  ap saved_of (lookup-insert_same s.current_thread_id _ s.threads),
  ap dead (lookup-insert_same s.current_thread_id _ s.threads),
)

mirror :
    (t u : ℕ) (d : ThreadContext) (o : Option ThreadContext)
    → saved_of (if u == t then some d else o) ≡ (if t == u then some (saved_in d) else saved_of o)
mirror t u d o = elim (Bool-cases (t == u)) [
  | inl same ↦ let same' : (u == t) ≡ true = ground arith in rw (same, same') refl
  | inr diff ↦ let diff' : (u == t) ≡ false = ground arith in rw (diff, diff') refl
]

park-saved_of :
    (s : ThreadManager) (c : ThreadContext) (t : ℕ)
    → is_running c.state ≡ true
    → saved_of (lookup t (park s c).threads) ≡ registers s t
unfolding park save_thread_state
park-saved_of s c t runs = rw (runs) (
    ap saved_of (lookup-insert s.current_thread_id t _ s.threads)
    ∙ mirror t s.current_thread_id _ _)

stay-registers :
    (hosts : ℕ → Host) (s : ThreadManager) (c : ThreadContext) (t : ℕ)
    → lookup s.current_thread_id s.threads ≡ some c
    → Settled s
    → registers (stay hosts s c) t ≡ saved_of (lookup t s.threads)
unfolding stay Settled dead
stay-registers hosts s c t e (kept, alive) =
    let alive' : is_terminated c.state ≡ false = ap dead (sym e) ∙ alive in
    let here = current-saved t s.current_thread_id s.threads _ kept in
    elim (Bool-cases (is_runnable c.state)) [
      | inl ready ↦
          rw (alive', ready)
            (ap
                (λ (o : Option ThreadContext).
                  if t == s.current_thread_id
                  then some (s.x0, s.lr, s.pc, s.others)
                  else saved_of o)
                (lookup-insert s.current_thread_id t _ s.threads)
              ∙ other t s.current_thread_id _ _ s.threads kept)
      | inr not' ↦ rw (alive', not') here
    ]

enter-registers :
    (hosts : ℕ → Host) (r : Option ℕ × ThreadManager) (t : ℕ)
    → Settled r.1
    → registers (enter hosts r) t ≡ saved_of (lookup t r.1.threads)
unfolding enter
enter-registers hosts (some u, s) t h = run-registers s u t h
enter-registers hosts (none, s) t h = elim (Option-cases (lookup s.current_thread_id s.threads)) [
  | inl e ↦ rw (enter, e) (current-saved t s.current_thread_id s.threads _ (settled s h).0)
  | inr (c, e) ↦ rw (enter, e) (stay-registers hosts s c t e h)
]

switch-registers :
    (hosts : ℕ → Host) (s : ThreadManager) (t : ℕ)
    → Settled s
    → registers (switch_thread hosts s) t ≡ saved_of (lookup t s.threads)
unfolding switch_thread Looked
switch-registers hosts s t h =
    let (same, h') = find-Looked hosts s h in
    enter-registers hosts (find_next_thread hosts s) t h' ∙ same t

-- A switch away from a running thread, for whatever reason, leaves every thread the registers with
-- which it goes on: those of the thread that is left are saved, and the thread that runs next, if
-- another is found, runs with those that were saved for it.
pub switch_keeps_registers :
    (hosts : ℕ → Host) (s : ThreadManager) (reason : SwitchReason) (c : ThreadContext) (t : ℕ)
    → lookup s.current_thread_id s.threads ≡ some c
    → is_running c.state ≡ true
    → registers (context_switch hosts s reason) t ≡ registers s t
unfolding context_switch
switch_keeps_registers hosts s reason c t e runs =
    elim (Bool-cases (c.block_next_switch && not (is_voluntary reason))) [
      | inl refused ↦ rw (context_switch, e, refused) refl
      | inr goes ↦
          rw (context_switch, e, goes)
            (switch-registers hosts (park s c) t (park-Settled s c runs) ∙ park-saved_of s c t runs)
    ]
