-- ===== src/Tls.antt =====
-- TlsManager of include/tls_manager.h and src/tls_manager.cpp: the thread-local block of the main
-- thread, over the memory of MemoryManager. The registers TPIDR_EL0 and X18 are fields of the state,
-- and an int is its 32-bit word.
pub mod Slots
mod Tests
use cross_shim.Base.{
  ℕ, ◌+◌, ◌*◌, ◌%◌, ◌^◌, Bool, true, false, Option, none, some, List, ◌==◌, if◌then◌else◌,
}
use cross_shim.Base.Word.{add64}
use cross_shim.Memory.{MemoryManager, read, write, zero_memory}
use cross_shim.Memory.Host.{Qemu}
use cross_shim.Memory.Words.{little_endian, from_bytes}

abbrev tls_start : ℕ
tls_start = 12 * 16 ^ 7

abbrev canary : ℕ
canary = 16045690984503098046

pub data TlsSlot : Type 0 where
  tls_slot_self tls_slot_thread_id tls_slot_errno tls_slot_opengl_api tls_slot_opengl
        tls_slot_stack_guard tls_slot_dtv tls_slot_bionic_tls :
      TlsSlot

unfoldable pub slot_number : TlsSlot → ℕ
slot_number tls_slot_self = 0
slot_number tls_slot_thread_id = 1
slot_number tls_slot_errno = 2
slot_number tls_slot_opengl_api = 3
slot_number tls_slot_opengl = 4
slot_number tls_slot_stack_guard = 5
slot_number tls_slot_dtv = 6
slot_number tls_slot_bionic_tls = 7

pub record TlsManager (G : Type 0) : Type 0 where
  pub memory : MemoryManager G
  pub tls_base : ℕ
  pub stack_guard : ℕ
  pub errno_location : ℕ
  pub tpidr_el0 : ℕ
  pub x18 : ℕ

-- The address of a slot.
unfoldable pub slot_address : {G : Type 0} → TlsManager G → TlsSlot → ℕ
slot_address t slot = add64 t.tls_base (slot_number slot * 8)

-- A variable that starts at 0, after a read into it.
unfoldable pub word_or_zero : Option (List ℕ) → ℕ
word_or_zero none = 0
word_or_zero (some bytes) = from_bytes bytes

module _ {G : Type 0} (q : Qemu G) where
  -- A write through the manager, with its result.
  unfoldable pub store_bytes : TlsManager G → ℕ → List ℕ → TlsManager G × Bool
  store_bytes t a bytes = elim (write q t.memory a bytes) [
    | none ↦ (t, false)
    | some m ↦ (record t { memory = m }, true)
  ]

  unfoldable pub set_slot : TlsManager G → TlsSlot → ℕ → TlsManager G × Bool
  unfolding store_bytes
  set_slot t slot value =
      if t.tls_base == 0
      then (t, false)
      else store_bytes t (slot_address t slot) (little_endian 8 value)

  unfoldable pub get_slot : TlsManager G → TlsSlot → ℕ
  get_slot t slot =
      if t.tls_base == 0 then 0 else word_or_zero (read q t.memory (slot_address t slot) 8)

  unfoldable pub set_errno : TlsManager G → ℕ → TlsManager G
  unfolding store_bytes
  set_errno t value =
      if t.errno_location == 0
      then t
      else (store_bytes t t.errno_location (little_endian 4 value)).0

  unfoldable pub get_errno : TlsManager G → ℕ
  get_errno t =
      if t.errno_location == 0 then 0 else word_or_zero (read q t.memory t.errno_location 4)

  -- What `initialize` does with memory, whatever its writes return.
  unfoldable pub initialize_block : TlsManager G → TlsManager G
  unfolding store_bytes set_slot
  initialize_block t =
      let t1 =
        (set_slot (record t { tls_base = tls_start; stack_guard = canary }) tls_slot_self
          tls_start).0 in
      let t2 = (set_slot t1 tls_slot_thread_id 1).0 in
      let location = add64 t2.tls_base 256 in
      let t3 = (set_slot (record t2 { errno_location = location }) tls_slot_errno location).0 in
      let t4 = record t3 { memory = (zero_memory q t3.memory t3.errno_location 4).0 } in
      let t5 = (set_slot t4 tls_slot_stack_guard t4.stack_guard).0 in
      (store_bytes t5 (add64 t5.tls_base 48) (little_endian 8 t5.stack_guard)).0

  -- The registers are only written if there is a processor.
  unfoldable pub initialize : Bool → TlsManager G → TlsManager G × Bool
  unfolding initialize_block
  initialize has_cpu t =
      let t' = initialize_block t in
      let pointer = add64 tls_start 8 in
      (if has_cpu then record t' { tpidr_el0 = pointer; x18 = pointer } else t', true)
