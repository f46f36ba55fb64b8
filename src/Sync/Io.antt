-- ===== src/Sync/Io.antt =====
-- The reads, writes and accepts of src/thread_manager.cpp that give up the processor to wait. What the host's
-- call returned is an argument; the mode of the descriptor, which is non-blocking during the call and
-- then what it was, is left out. A call is described up to `context_switch`.
pub mod Attempts
pub mod Polling
pub mod Socket
use cross_shim.Base.{
  ℕ, ◌+◌, ◌-◌, ◌^◌, Bool, true, false, Option, none, some, List, [], ◌∷◌, ◌++◌, ◌==◌, if◌then◌else◌,
  length,
}
use cross_shim.Base.Word.{u64_mod}
use cross_shim.Container.Dict
use cross_shim.Container.Dict.{lookup}
use cross_shim.Memory.Words.{little_endian}
use cross_shim.Sync.{
  ThreadManager, ThreadContext, Outcome, returns, switches, io_wait, IoOperation, no_operation,
  recv, send, accept, read, write, hle_base, update_current, finish,
}

-- What a call of the host gave: EAGAIN and EWOULDBLOCK are `would_block`.
pub data HostReply {ℓ} (A : Type ℓ) : Type ℓ where
  done : A → HostReply A
  would_block : HostReply A
  failed : HostReply A

-- What a call writes to the guest's memory, in order.
abbrev pub Written : Type 0
Written = List (ℕ × List ℕ)

-- The result -1.
abbrev pub minus_one : ℕ
minus_one = u64_mod - 1

unfoldable pub store_received : ℕ → List ℕ → Written
store_received buf_ptr [] = []
store_received buf_ptr (b ∷ bytes) = (buf_ptr, b ∷ bytes) ∷ []

-- The address of the peer and its length, each if the guest asks for it.
unfoldable pub store_address : ℕ → ℕ → List ℕ → Written
store_address addr_ptr addrlen_ptr bytes =
    (if addr_ptr == 0 then [] else (addr_ptr, bytes) ∷ [])
    ++ (if addrlen_ptr == 0 then [] else (addrlen_ptr, little_endian 4 (length bytes)) ∷ [])

abbrev pub resource : Option ℕ → ℕ
resource none = minus_one
resource (some fd) = fd

-- What a call remembers, and the state of its thread.
unfoldable pub block_on_io :
    ThreadManager → Option ℕ → (ThreadContext → ThreadContext) → ThreadManager × Outcome × Written
unfolding update_current
block_on_io s fd f = (
  update_current (update_current s f)
      (λ t. record t { state = io_wait; blocked_on_resource = resource fd }),
  switches,
  [],
)

unfoldable pub finish_io : ThreadManager → ℕ → ℕ → Written → ThreadManager × Outcome × Written
unfolding finish
finish_io s return_addr result written =
    let (s', out) = finish s return_addr result in (s', out, written)

unfoldable pub blocking_read :
    ThreadManager → Option ℕ → ℕ → ℕ → HostReply (List ℕ) → ThreadManager × Outcome × Written
unfolding store_received block_on_io
blocking_read s fd buf_ptr count (done bytes) =
    (s, returns (length bytes), store_received buf_ptr bytes)
blocking_read s fd buf_ptr count would_block = block_on_io s fd (λ t. record t {
  io_operation = read;
  io_fd = fd;
  io_buf_ptr = buf_ptr;
  io_len = count;
  io_return_addr = s.lr;
  pc = hle_base + 0xFFFC0;
})
blocking_read s fd buf_ptr count failed = (s, returns minus_one, [])

-- The state in which a resume function tries again, without the operation.
unfoldable pub clear_io : ThreadManager → ThreadContext → ThreadManager
clear_io s t = record s {
  threads =
      Dict.insert s.current_thread_id (record t { io_operation = no_operation; io_fd = none })
        s.threads;
}

unfoldable pub retry_read_io :
    ThreadManager → ThreadContext → HostReply (List ℕ) → ThreadManager × Outcome × Written
unfolding clear_io store_received block_on_io finish_io
retry_read_io s t (done bytes) =
    finish_io (clear_io s t) t.io_return_addr (length bytes) (store_received t.io_buf_ptr bytes)
retry_read_io s t would_block = block_on_io (clear_io s t) t.io_fd (λ u. record u {
  io_operation = read;
  io_fd = t.io_fd;
  io_buf_ptr = t.io_buf_ptr;
  io_len = t.io_len;
  io_return_addr = t.io_return_addr;
  pc = hle_base + 0xFFFC0;
})
retry_read_io s t failed = finish_io (clear_io s t) t.io_return_addr minus_one []

unfoldable pub blocking_read_resume :
    ThreadManager → HostReply (List ℕ) → ThreadManager × Outcome × Written
unfolding retry_read_io
blocking_read_resume s reply = elim (lookup s.current_thread_id s.threads) [
  | none ↦ (s, returns s.x0, [])
  | some t ↦ retry_read_io s t reply
]

-- The number of bytes that were written.
unfoldable pub blocking_write :
    ThreadManager → Option ℕ → ℕ → ℕ → HostReply ℕ → ThreadManager × Outcome × Written
unfolding block_on_io
blocking_write s fd buf_ptr count (done n) = (s, returns n, [])
blocking_write s fd buf_ptr count would_block = block_on_io s fd (λ t. record t {
  io_operation = write;
  io_fd = fd;
  io_buf_ptr = buf_ptr;
  io_len = count;
  io_return_addr = s.lr;
  pc = hle_base + 0xFFFC4;
})
blocking_write s fd buf_ptr count failed = (s, returns minus_one, [])

unfoldable pub retry_write_io :
    ThreadManager → ThreadContext → HostReply ℕ → ThreadManager × Outcome × Written
unfolding clear_io block_on_io finish_io
retry_write_io s t (done n) = finish_io (clear_io s t) t.io_return_addr n []
retry_write_io s t would_block = block_on_io (clear_io s t) t.io_fd (λ u. record u {
  io_operation = write;
  io_fd = t.io_fd;
  io_buf_ptr = t.io_buf_ptr;
  io_len = t.io_len;
  io_return_addr = t.io_return_addr;
  pc = hle_base + 0xFFFC4;
})
retry_write_io s t failed = finish_io (clear_io s t) t.io_return_addr minus_one []

unfoldable pub blocking_write_resume :
    ThreadManager → HostReply ℕ → ThreadManager × Outcome × Written
unfolding retry_write_io
blocking_write_resume s reply = elim (lookup s.current_thread_id s.threads) [
  | none ↦ (s, returns s.x0, [])
  | some t ↦ retry_write_io s t reply
]

-- The new descriptor and the address of the peer.
unfoldable pub blocking_accept :
    ThreadManager → Option ℕ → ℕ → ℕ → HostReply (ℕ × List ℕ) → ThreadManager × Outcome × Written
unfolding store_address block_on_io
blocking_accept s sockfd addr_ptr addrlen_ptr (done (fd, address)) =
    (s, returns fd, store_address addr_ptr addrlen_ptr address)
blocking_accept s sockfd addr_ptr addrlen_ptr would_block = block_on_io s sockfd (λ t. record t {
  io_operation = accept;
  io_fd = sockfd;
  io_addr_ptr = addr_ptr;
  io_addrlen_ptr = addrlen_ptr;
  io_return_addr = s.lr;
  pc = hle_base + 0xFFFE8;
})
blocking_accept s sockfd addr_ptr addrlen_ptr failed = (s, returns minus_one, [])

unfoldable pub retry_accept :
    ThreadManager → ThreadContext → HostReply (ℕ × List ℕ) → ThreadManager × Outcome × Written
unfolding clear_io store_address block_on_io finish_io
retry_accept s t (done (fd, address)) =
    finish_io (clear_io s t) t.io_return_addr fd
      (store_address t.io_addr_ptr t.io_addrlen_ptr address)
retry_accept s t would_block = block_on_io (clear_io s t) t.io_fd (λ u. record u {
  io_operation = accept;
  io_fd = t.io_fd;
  io_addr_ptr = t.io_addr_ptr;
  io_addrlen_ptr = t.io_addrlen_ptr;
  io_return_addr = t.io_return_addr;
  pc = hle_base + 0xFFFE8;
})
retry_accept s t failed = finish_io (clear_io s t) t.io_return_addr minus_one []

unfoldable pub blocking_accept_resume :
    ThreadManager → HostReply (ℕ × List ℕ) → ThreadManager × Outcome × Written
unfolding retry_accept
blocking_accept_resume s reply = elim (lookup s.current_thread_id s.threads) [
  | none ↦ (s, returns s.x0, [])
  | some t ↦ retry_accept s t reply
]
