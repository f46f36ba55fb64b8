-- ===== src/Tls/Tests.antt =====
-- The theorem of the slots at a concrete block.
use cross_shim.Base.{◌≡◌, refl, true, arith}
use cross_shim.Base.Word.{add64}
use cross_shim.Memory.{write, write_host}
use cross_shim.Memory.Host.{write_bytes}
use cross_shim.Memory.Region.{find_region, holds_range}
use cross_shim.Memory.Words.{little_endian}
use cross_shim.Memory.Tests.{no_cpu, manager, apart_in_host}
use cross_shim.Tls.{
  TlsManager, tls_slot_thread_id, slot_number, slot_address, store_bytes, set_slot, get_slot,
}
use cross_shim.Tls.Slots.{get_slot-set_slot}

abbrev block : TlsManager (Unit {0})
block = record {
  memory = manager;
  tls_base = 4096;
  stack_guard = 0;
  errno_location = 0;
  tpidr_el0 = 0;
  x18 = 0;
}

thread_id_set : (set_slot no_cpu block tls_slot_thread_id 7).1 ≡ true
unfolding set_slot store_bytes slot_address slot_number add64 write write_host write_bytes
    find_region holds_range little_endian
thread_id_set = refl

get_slot-set_slot_example :
    get_slot no_cpu (set_slot no_cpu block tls_slot_thread_id 7).0 tls_slot_thread_id ≡ 7
unfolding slot_number
get_slot-set_slot_example =
    get_slot-set_slot no_cpu block tls_slot_thread_id tls_slot_thread_id 7 refl apart_in_host
      (omega arith) (omega arith) thread_id_set
