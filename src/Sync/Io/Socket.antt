-- ===== src/Sync/Io/Socket.antt =====
-- The calls on sockets of src/thread_manager.cpp: recv, send, recvfrom and sendto call the host once,
-- with the mode that the socket has; their resume functions serve threads that wait already.
use cross_shim.Base.{ℕ, ◌+◌, none, some, List, [], ◌∷◌, ◌++◌, ◌==◌, if◌then◌else◌, length}
use cross_shim.Container.Dict
use cross_shim.Container.Dict.{lookup}
use cross_shim.Memory.Words.{little_endian}
use cross_shim.Sync.{
  ThreadManager, ThreadContext, Outcome, returns, no_operation, recv, send, recvfrom, sendto,
  hle_base,
}
use cross_shim.Sync.Io.{
  HostReply, done, would_block, failed, Written, minus_one, store_received, block_on_io, finish_io,
  clear_io,
}

unfoldable pub blocking_recv :
    ThreadManager → ℕ → HostReply (List ℕ) → ThreadManager × Outcome × Written
unfolding store_received
blocking_recv s buf_ptr (done bytes) = (s, returns (length bytes), store_received buf_ptr bytes)
blocking_recv s buf_ptr would_block = (s, returns minus_one, [])
blocking_recv s buf_ptr failed = (s, returns minus_one, [])

unfoldable pub retry_recv :
    ThreadManager → ThreadContext → HostReply (List ℕ) → ThreadManager × Outcome × Written
unfolding clear_io store_received block_on_io finish_io
retry_recv s t (done bytes) =
    finish_io (clear_io s t) t.io_return_addr (length bytes) (store_received t.io_buf_ptr bytes)
retry_recv s t would_block = block_on_io (clear_io s t) t.io_fd (λ u. record u {
  io_operation = recv;
  io_fd = t.io_fd;
  io_buf_ptr = t.io_buf_ptr;
  io_len = t.io_len;
  io_flags = t.io_flags;
  io_return_addr = t.io_return_addr;
  pc = hle_base + 0xFFFE0;
})
retry_recv s t failed = finish_io (clear_io s t) t.io_return_addr minus_one []

unfoldable pub blocking_recv_resume :
    ThreadManager → HostReply (List ℕ) → ThreadManager × Outcome × Written
unfolding retry_recv
blocking_recv_resume s reply = elim (lookup s.current_thread_id s.threads) [
  | none ↦ (s, returns s.x0, [])
  | some t ↦ retry_recv s t reply
]

-- send and sendto; the result is the number of bytes that were sent.
unfoldable pub blocking_send : ThreadManager → HostReply ℕ → ThreadManager × Outcome × Written
blocking_send s (done n) = (s, returns n, [])
blocking_send s would_block = (s, returns minus_one, [])
blocking_send s failed = (s, returns minus_one, [])

unfoldable pub retry_send :
    ThreadManager → ThreadContext → HostReply ℕ → ThreadManager × Outcome × Written
unfolding clear_io block_on_io finish_io
retry_send s t (done n) = finish_io (clear_io s t) t.io_return_addr n []
retry_send s t would_block = block_on_io (clear_io s t) t.io_fd (λ u. record u {
  io_operation = send;
  io_fd = t.io_fd;
  io_buf_ptr = t.io_buf_ptr;
  io_len = t.io_len;
  io_flags = t.io_flags;
  io_return_addr = t.io_return_addr;
  pc = hle_base + 0xFFFE4;
})
retry_send s t failed = finish_io (clear_io s t) t.io_return_addr minus_one []

unfoldable pub blocking_send_resume :
    ThreadManager → HostReply ℕ → ThreadManager × Outcome × Written
unfolding retry_send
blocking_send_resume s reply = elim (lookup s.current_thread_id s.threads) [
  | none ↦ (s, returns s.x0, [])
  | some t ↦ retry_send s t reply
]

-- sizeof(sockaddr_storage), which stays the length if no address is asked for.
abbrev pub sockaddr_size : ℕ
sockaddr_size = 128

unfoldable pub store_peer : ℕ → ℕ → List ℕ → Written
store_peer addr_ptr addrlen_ptr address =
    let addrlen = if addr_ptr == 0 then sockaddr_size else length address in
    (if addr_ptr == 0 then [] else (addr_ptr, address) ∷ [])
    ++ (if addrlen_ptr == 0 then [] else (addrlen_ptr, little_endian 4 addrlen) ∷ [])

-- The bytes, and the address of the sender.
unfoldable pub blocking_recvfrom :
    ThreadManager → ℕ → ℕ → ℕ → HostReply (List ℕ × List ℕ) → ThreadManager × Outcome × Written
unfolding store_received store_peer
blocking_recvfrom s buf_ptr addr_ptr addrlen_ptr (done (bytes, address)) = (
  s,
  returns (length bytes),
  store_received buf_ptr bytes ++ store_peer addr_ptr addrlen_ptr address,
)
blocking_recvfrom s buf_ptr addr_ptr addrlen_ptr would_block = (s, returns minus_one, [])
blocking_recvfrom s buf_ptr addr_ptr addrlen_ptr failed = (s, returns minus_one, [])

-- The request without its addresses.
unfoldable pub clear_addresses : ThreadManager → ThreadContext → ThreadManager
clear_addresses s t = record s {
  threads =
      Dict.insert s.current_thread_id
        (record t {
          io_operation = no_operation;
          io_fd = none;
          io_addr_ptr = 0;
          io_addrlen_ptr = 0;
        })
        s.threads;
}

unfoldable pub retry_recvfrom :
    ThreadManager → ThreadContext → HostReply (List ℕ × List ℕ) → ThreadManager × Outcome × Written
unfolding clear_addresses store_received store_peer block_on_io finish_io
retry_recvfrom s t (done (bytes, address)) =
    finish_io (clear_addresses s t) t.io_return_addr (length bytes)
      (store_received t.io_buf_ptr bytes ++ store_peer t.io_addr_ptr t.io_addrlen_ptr address)
retry_recvfrom s t would_block = block_on_io (clear_addresses s t) t.io_fd (λ u. record u {
  io_operation = recvfrom;
  io_fd = t.io_fd;
  io_buf_ptr = t.io_buf_ptr;
  io_len = t.io_len;
  io_flags = t.io_flags;
  io_addr_ptr = t.io_addr_ptr;
  io_addrlen_ptr = t.io_addrlen_ptr;
  io_return_addr = t.io_return_addr;
  pc = hle_base + 0xFFFCC;
})
retry_recvfrom s t failed = finish_io (clear_addresses s t) t.io_return_addr minus_one []

unfoldable pub blocking_recvfrom_resume :
    ThreadManager → HostReply (List ℕ × List ℕ) → ThreadManager × Outcome × Written
unfolding retry_recvfrom
blocking_recvfrom_resume s reply = elim (lookup s.current_thread_id s.threads) [
  | none ↦ (s, returns s.x0, [])
  | some t ↦ retry_recvfrom s t reply
]

unfoldable pub retry_sendto :
    ThreadManager → ThreadContext → HostReply ℕ → ThreadManager × Outcome × Written
unfolding clear_addresses block_on_io finish_io
retry_sendto s t (done n) = finish_io (clear_addresses s t) t.io_return_addr n []
retry_sendto s t would_block = block_on_io (clear_addresses s t) t.io_fd (λ u. record u {
  io_operation = sendto;
  io_fd = t.io_fd;
  io_buf_ptr = t.io_buf_ptr;
  io_len = t.io_len;
  io_flags = t.io_flags;
  io_addr_ptr = t.io_addr_ptr;
  io_addrlen_ptr = t.io_addrlen_ptr;
  io_return_addr = t.io_return_addr;
  pc = hle_base + 0xFFFD0;
})
retry_sendto s t failed = finish_io (clear_addresses s t) t.io_return_addr minus_one []

unfoldable pub blocking_sendto_resume :
    ThreadManager → HostReply ℕ → ThreadManager × Outcome × Written
unfolding retry_sendto
blocking_sendto_resume s reply = elim (lookup s.current_thread_id s.threads) [
  | none ↦ (s, returns s.x0, [])
  | some t ↦ retry_sendto s t reply
]
