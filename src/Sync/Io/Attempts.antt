-- ===== src/Sync/Io/Attempts.antt =====
-- A read that has to wait, over any number of attempts.
use cross_shim.Base.{ℕ, ◌≡◌, refl, Option, none, some, List, [], ◌∷◌, arith, ap, ◌∙◌, length}
use cross_shim.Container.Dict
use cross_shim.Container.Dict.{lookup, lookup-insert_same}
use cross_shim.Sync.{ThreadManager, ThreadContext, returns, no_operation, update_current, finish}
use cross_shim.Sync.Wake.{update_current-lookup, update_current-id}
use cross_shim.Sync.Io.{
  done, would_block, store_received, block_on_io, finish_io, clear_io, blocking_read, retry_read_io,
  blocking_read_resume,
}

-- What a waiting read remembers: the descriptor, the buffer, its length and the return address.
abbrev pub Request : Type 0
Request = Option ℕ × ℕ × ℕ × ℕ

abbrev pub request_in : ThreadContext → Request
request_in c = (c.io_fd, c.io_buf_ptr, c.io_len, c.io_return_addr)

abbrev asked_by : Option ThreadContext → Option Request
asked_by none = none
asked_by (some c) = some (request_in c)

abbrev pub request_of : ThreadManager → ℕ → Option Request
request_of s t = asked_by (lookup t s.threads)

-- One after the other the thread runs the resume function, in states in which its request stands as
-- the attempt before has left it, and again and again the read would block; at last it runs once
-- more, in the last state.
abbrev pub Attempts : ℕ → ThreadManager → List ThreadManager → ThreadManager → Type 0
Attempts t before [] last = (last.current_thread_id ≡ t) × (request_of last t ≡ request_of before t)
Attempts t before (s ∷ ss) last =
    (s.current_thread_id ≡ t)
    × (request_of s t ≡ request_of before t)
    × Attempts t (blocking_read_resume s would_block).0 ss last

block-request_of :
    (s : ThreadManager) (t : ℕ) (fd : Option ℕ) (c : ThreadContext)
    (f : ThreadContext → ThreadContext)
    → s.current_thread_id ≡ t
    → lookup t s.threads ≡ some c
    → request_of (block_on_io s fd f).0 t ≡ some (request_in (f c))
unfolding block_on_io
block-request_of s t fd c f id at = ap asked_by (
    update_current-lookup (update_current s f) t (f c) _ (update_current-id s f ∙ id)
      (update_current-lookup s t c f id at))

entry_of :
    (o : Option ThreadContext) (r : Request)
    → asked_by o ≡ some r
    → (c : ThreadContext) × (o ≡ some c) × (request_in c ≡ r)
entry_of none r e = ground arith
entry_of (some c) r e = (c, refl, ground arith)

-- An attempt that would block leaves the request as it was.
retry-request_of :
    (s : ThreadManager) (t : ℕ) (r : Request)
    → s.current_thread_id ≡ t
    → request_of s t ≡ some r
    → request_of (blocking_read_resume s would_block).0 t ≡ some r
unfolding blocking_read_resume retry_read_io clear_io
retry-request_of s t r id e =
    let (c, at, same) = entry_of (lookup t s.threads) r e in
    let here : lookup s.current_thread_id s.threads ≡ some c =
      ap (λ (x : ℕ). lookup x s.threads) id ∙ at in
    let cleared = clear_io s c in
    let left = record c { io_operation = no_operation; io_fd = none } in
    let found : lookup t cleared.threads ≡ some left =
      ap (λ (x : ℕ). lookup t (Dict.insert x left s.threads)) id
      ∙ lookup-insert_same t left s.threads in
    rw (blocking_read_resume, here) (block-request_of cleared t c.io_fd _ _ id found ∙ ap some same)

last-request_of :
    (t : ℕ) (before : ThreadManager) (ss : List ThreadManager) (last : ThreadManager) (r : Request)
    → request_of before t ≡ some r
    → Attempts t before ss last
    → request_of last t ≡ some r
last-request_of t before [] last r e (id, same) = same ∙ e
last-request_of t before (s ∷ ss) last r e (id, same, more) =
    last-request_of t (blocking_read_resume s would_block).0 ss last r
      (retry-request_of s t r id (same ∙ e)) more

last_runs :
    (t : ℕ) (before : ThreadManager) (ss : List ThreadManager) (last : ThreadManager)
    → Attempts t before ss last
    → last.current_thread_id ≡ t
last_runs t before [] last (id, same) = id
last_runs t before (s ∷ ss) last (id, same, more) =
    last_runs t (blocking_read_resume s would_block).0 ss last more

-- A read that would block, of a thread in the table, is tried again any number of times, in any
-- states in which the thread runs with its request unchanged, and would block again. When an attempt
-- then gets bytes, the call returns their number to the address from which it was made, and the
-- bytes are written to the buffer that it was given.
pub read_gets_bytes :
    (s : ThreadManager) (c : ThreadContext) (fd : Option ℕ) (buf_ptr count : ℕ) (bytes : List ℕ)
    (ss : List ThreadManager) (last : ThreadManager)
    → lookup s.current_thread_id s.threads ≡ some c
    → Attempts s.current_thread_id (blocking_read s fd buf_ptr count would_block).0 ss last
    → let (s', out, written) = blocking_read_resume last (done bytes) in
      (out ≡ returns (length bytes))
      × (s'.x0 ≡ length bytes)
      × (s'.lr ≡ s.lr)
      × (written ≡ store_received buf_ptr bytes)
unfolding blocking_read blocking_read_resume retry_read_io finish_io finish
read_gets_bytes s c fd buf_ptr count bytes ss last at tries =
    let t = s.current_thread_id in
    let first = block-request_of s t fd c _ refl at in
    let asks =
      last-request_of t (blocking_read s fd buf_ptr count would_block).0 ss last
        (fd, buf_ptr, count, s.lr) first tries in
    let (d, here, same) = entry_of (lookup t last.threads) _ asks in
    let id = last_runs t _ ss last tries in
    let here' : lookup last.current_thread_id last.threads ≡ some d =
      ap (λ (x : ℕ). lookup x last.threads) id ∙ here in
    rw (blocking_read_resume, here')
      (
        refl,
        refl,
        ap (λ (r : Request). r.3) same,
        ap (λ (r : Request). store_received r.1 bytes) same,
      )
