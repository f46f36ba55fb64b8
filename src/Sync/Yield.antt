-- ===== src/Sync/Yield.antt =====
-- The voluntary switches of src/thread_manager.cpp.
use cross_shim.Base.{ℕ, ◌/◌, ◌%◌, Bool, false, ◌&&◌, ◌||◌, Option, ◌==◌, if◌then◌else◌}
use cross_shim.Sync.{ThreadManager, IoOperation, io_wait, recv, recvfrom, sendto, update_current}
use cross_shim.Sync.Scheduler.{Host, thread_yield, in_hle}
use cross_shim.Sync.Switch.{context_switch}

-- In a handler the thread is to go on at its caller.
unfoldable pub yield : (ℕ → Host) → ThreadManager → Bool → Bool → ThreadManager
unfolding in_hle context_switch
yield hosts s set_pc_to_lr in_hle_handler =
    let s' =
      if set_pc_to_lr && (in_hle_handler || in_hle s.pc) then record s { pc = s.lr } else s in
    context_switch hosts s' thread_yield

unfoldable pub coop_yield : (ℕ → Host) → ThreadManager → ThreadManager
unfolding context_switch
coop_yield hosts s = context_switch hosts s thread_yield

-- POLLIN is 1 and POLLOUT is 4.
unfoldable pub operation_for : ℕ → IoOperation
operation_for events =
    if events % 2 == 1 then recvfrom else if events / 4 % 2 == 1 then sendto else recv

unfoldable pub block_on_io_and_yield :
    (ℕ → Host) → ThreadManager → Option ℕ → ℕ → Bool → ThreadManager
unfolding update_current operation_for yield
block_on_io_and_yield hosts s fd events in_hle_handler =
    let s' =
      update_current s
        (λ t. record t { state = io_wait; io_fd = fd; io_operation = operation_for events }) in
    yield hosts s' false in_hle_handler
