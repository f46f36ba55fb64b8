-- ===== src/Sync/Scheduler/Rouse.antt =====
-- What a look for the next thread leaves in the table.
use cross_shim.Base.{
  ℕ, ◌≡◌, refl, Bool, Option, none, some, List, [], ◌∷◌, arith, if◌then◌else◌, ap, ◌∙◌, Bool-cases,
  inl, inr,
}
use cross_shim.Container.Dict.{lookup}
use cross_shim.Sync.{ThreadManager, ThreadContext, runnable}
use cross_shim.Sync.Scheduler.{Host, wake_threads, wake_pass, has_slept, has_io, select_next_thread}

-- A pass over the table makes the threads that satisfy its test runnable.
abbrev pub rouse : (ThreadContext → Bool) → Option ThreadContext → Option ThreadContext
rouse test none = none
rouse test (some c) = some (if test c then record c { state = runnable } else c)

wake_threads-lookup :
    (test : ThreadContext → Bool) (t : ℕ) (m : List (ℕ × ThreadContext))
    → lookup t (wake_threads test m).0 ≡ rouse test (lookup t m)
unfolding wake_threads lookup
wake_threads-lookup test t [] = refl
wake_threads-lookup test t ((u, d) ∷ m) = elim (Bool-cases (test d)) [
  | inl e ↦ rw (e) ground (arith, wake_threads-lookup test t m)
  | inr e ↦ rw (e) ground (arith, wake_threads-lookup test t m)
]

-- Looking for a thread changes nothing but the states of threads and the queue.
pub select-lookup :
    (h : Host) (s : ThreadManager) (t : ℕ)
    → lookup t (select_next_thread h s).1.threads
      ≡ rouse (λ c. has_io h c c.state) (rouse (λ c. has_slept h c c.state) (lookup t s.threads))
unfolding select_next_thread wake_pass
select-lookup h s t =
    let slept = wake_threads-lookup (λ c. has_slept h c c.state) t s.threads in
    wake_threads-lookup (λ c. has_io h c c.state) t _ ∙ ap (rouse (λ c. has_io h c c.state)) slept
