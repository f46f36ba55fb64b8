-- ===== src/Sync/Io/Polling.antt =====
-- What the scheduler waits for after a read that would block.
use cross_shim.Base.{ℕ, ◌+◌, ◌≡◌, refl, false, none, some, ap, ◌∙◌, if◌then◌else◌}
use cross_shim.Container.Dict.{lookup}
use cross_shim.Sync.{
  ThreadManager, ThreadContext, update_current, io_wait, runnable, read, hle_base,
}
use cross_shim.Sync.Wake.{update_current-lookup, update_current-id}
use cross_shim.Sync.Scheduler.{
  Host, has_slept, has_io, has_timed_out, fd_ready, waits_for_input, select_next_thread,
}
use cross_shim.Sync.Scheduler.Rouse.{rouse, select-lookup}
use cross_shim.Sync.Io.{would_block, block_on_io, blocking_read}

module _ (s : ThreadManager) (c : ThreadContext) (fd buf_ptr count : ℕ)
    (at : lookup s.current_thread_id s.threads ≡ some c) where
  -- The entry of the thread that waits.
  abbrev pub waits_to_read : ThreadContext
  waits_to_read = record c {
    state = io_wait;
    blocked_on_resource = fd;
    io_operation = read;
    io_fd = some fd;
    io_buf_ptr = buf_ptr;
    io_len = count;
    io_return_addr = s.lr;
    pc = hle_base + 0xFFFC0;
  }

  read-lookup :
      lookup s.current_thread_id (blocking_read s (some fd) buf_ptr count would_block).0.threads
      ≡ some waits_to_read
  unfolding blocking_read block_on_io
  read-lookup =
      update_current-lookup (update_current s _) s.current_thread_id _ _ (update_current-id s _)
        (update_current-lookup s s.current_thread_id c _ refl at)

  roused :
      (h : Host)
      → c.epoll_timeout_ms ≡ none
      → rouse (λ d. has_io h d d.state) (rouse (λ d. has_slept h d d.state) (some waits_to_read))
        ≡ some
            (if h.poll fd false then record waits_to_read { state = runnable } else waits_to_read)
  unfolding has_io has_slept has_timed_out fd_ready waits_for_input
  roused h untimed = rw (untimed) refl

  -- A thread outside an epoll_wait whose read would block is woken by the next look of the scheduler
  -- if its descriptor can be written to, and not woken if it cannot, whatever there is to read.
  pub read_waits_for_output :
      (h : Host)
      → c.epoll_timeout_ms ≡ none
      → lookup s.current_thread_id
          (select_next_thread h (blocking_read s (some fd) buf_ptr count would_block).0).1.threads
        ≡ some
            (if h.poll fd false then record waits_to_read { state = runnable } else waits_to_read)
  read_waits_for_output h untimed =
      select-lookup h (blocking_read s (some fd) buf_ptr count would_block).0 s.current_thread_id
      ∙ ap (λ o. rouse (λ d. has_io h d d.state) (rouse (λ d. has_slept h d d.state) o)) read-lookup
      ∙ roused h untimed
