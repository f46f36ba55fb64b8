-- ===== src/Memory/Host.antt =====
-- Bytes at addresses of the host, and what the manager uses of QEMU.
use cross_shim.Base.{
  ℕ, zero, suc, ◌+◌, ◌*◌, ◌/◌, ◌%◌, Bool, Option, List, [], ◌∷◌, ◌==◌, if◌then◌else◌,
}

pub record Qemu (G : Type 0) : Type 0 where
  -- libafl_qemu_current_cpu or libafl_qemu_get_cpu(0) returns a processor.
  pub has_cpu : G → Bool
  -- libafl_qemu_get_cpu(0) returns a processor.
  pub has_first_cpu : G → Bool
  -- cpu_memory_rw_debug: `none` or `false` on an error.
  pub rw_read : G → ℕ → ℕ → Option (List ℕ)
  pub rw_write : G → ℕ → List ℕ → G × Bool
  -- target_mmap at a fixed address; the manager goes on whatever it returns.
  pub target_mmap : G → ℕ → ℕ → ℕ → G

-- `memcpy` out of the host's memory and into it.
unfoldable pub read_bytes : (ℕ → ℕ) → ℕ → ℕ → List ℕ
read_bytes h p zero = []
read_bytes h p (suc n) = h p ∷ read_bytes h (suc p) n

abbrev pub store : (ℕ → ℕ) → ℕ → ℕ → ℕ → ℕ
store h p b x = if x == p then b else h x

unfoldable pub write_bytes : (ℕ → ℕ) → ℕ → List ℕ → ℕ → ℕ
write_bytes h p [] = h
write_bytes h p (b ∷ bs) = write_bytes (store h p b) (suc p) bs

-- MEM_READ, MEM_WRITE and MEM_EXEC are the bits 1, 2 and 4, and so are PROT_READ, PROT_WRITE and
-- PROT_EXEC.
unfoldable pub prot_of : ℕ → ℕ
prot_of perms = perms % 2 + (perms / 2 % 2) * 2 + (perms / 4 % 2) * 4
