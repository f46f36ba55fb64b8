-- ===== src/Sync/Tests/Reading.antt =====
-- The theorems of the blocking reads at concrete threads.
use cross_shim.Base.{◌≡◌, refl, some, [], ◌∷◌}
use cross_shim.Container.Dict
use cross_shim.Container.Dict.{lookup}
use cross_shim.Sync.{ThreadManager, returns, update_current}
use cross_shim.Sync.Scheduler.{Host}
use cross_shim.Sync.Io.{
  done, would_block, store_received, block_on_io, blocking_read, blocking_read_resume,
  retry_read_io, clear_io,
}
use cross_shim.Sync.Io.Attempts.{Attempts, read_gets_bytes}
use cross_shim.Sync.Tests.{awake, threads}

thread_runs : lookup threads.current_thread_id threads.threads ≡ some awake
unfolding lookup
thread_runs = refl

-- The state after the first attempt, with another X0 in the meantime, and after the second one.
abbrev asked : ThreadManager
asked = record (blocking_read threads (some 5) 1024 16 would_block).0 { x0 = 77 }

abbrev asked_again : ThreadManager
asked_again = (blocking_read_resume asked would_block).0

twice-Attempts :
    Attempts 2 (blocking_read threads (some 5) 1024 16 would_block).0 (asked ∷ []) asked_again
unfolding blocking_read block_on_io update_current lookup Dict.insert blocking_read_resume
    retry_read_io clear_io
twice-Attempts = (refl, refl, (refl, refl))

read_gets_bytes_example :
    let (s', out, written) = blocking_read_resume asked_again (done (65 ∷ 66 ∷ 67 ∷ [])) in
    (out ≡ returns 3)
    × (s'.x0 ≡ 3)
    × (s'.lr ≡ 4096)
    × (written ≡ store_received 1024 (65 ∷ 66 ∷ 67 ∷ []))
read_gets_bytes_example =
    read_gets_bytes threads awake (some 5) 1024 16 (65 ∷ 66 ∷ 67 ∷ []) (asked ∷ []) asked_again
      thread_runs twice-Attempts

-- The descriptor can be read, but not written.
abbrev readable : Host
readable = record { now = 9; poll = λ fd for_input. for_input }
