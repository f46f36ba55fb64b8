-- ===== src/Relocation/Tests.antt =====
-- The theorems of the relocations at a concrete module.
use cross_shim.Base.{
  ℕ, ◌≡◌, refl, true, some, List, [], ◌∷◌, inl, arith, ◌==◌, if◌then◌else◌, ◌&&◌, ◌+◌,
}
use cross_shim.Base.Word.{add64}
use cross_shim.Memory.{read, write, read_host, write_host}
use cross_shim.Memory.Host.{write_bytes, read_bytes}
use cross_shim.Memory.Region.{find_region, holds_range}
use cross_shim.Memory.Words.{little_endian, from_bytes}
use cross_shim.Memory.Tests.{no_cpu, manager, apart_in_host}
use cross_shim.Relocation.{
  Relocation, SymbolResolver, RelocationHandler, process_relocations, process_all, count,
  process_relocation, apply_relative, apply_symbol, write_word, add_unresolved, symbol_address,
  look_up, is_empty, is_relative, is_abs64, is_slot, reloc_type, strip_version_suffix,
  r_aarch64_relative, r_aarch64_abs64, r_aarch64_jump_slot,
}
use cross_shim.Relocation.Applied.{
  Separate, Applied, process_relocations-Applied, failures, process_relocations-failures,
}

-- One relocation of the module itself, one of a symbol in it, and one of the import `f@`.
abbrev entries : List Relocation
entries =
    record { offset = 0; kind = r_aarch64_relative; addend = 0; symbol_name = []; symbol_value = 0 }
    ∷ record {
      offset = 8;
      kind = r_aarch64_abs64;
      addend = 4;
      symbol_name = 103 ∷ [];
      symbol_value = 64;
    }
    ∷ record {
      offset = 16;
      kind = r_aarch64_jump_slot;
      addend = 0;
      symbol_name = 102 ∷ 64 ∷ [];
      symbol_value = 0;
    }
    ∷ []

-- Only `f` is known.
abbrev imports : SymbolResolver
imports = some known
  where
    known : List ℕ → ℕ
    known [] = 0
    known (c ∷ []) = if c == 102 then 4096 else 0
    known (c ∷ d ∷ cs) = 0

abbrev fresh : RelocationHandler (Unit {0})
fresh = record { memory = manager; processed_count = 0; failed_count = 0; unresolved = [] }

separate : Separate 8192 entries
unfolding add64
separate = (
  omega arith,
  (inl (omega arith), (inl (omega arith), tt)),
  (omega arith, (inl (omega arith), tt), (omega arith, tt, tt)),
)

all_succeed : (process_relocations no_cpu fresh imports 8192 entries).1 ≡ true
unfolding process_relocations process_all count process_relocation apply_relative apply_symbol
    write_word add_unresolved symbol_address look_up is_empty is_relative is_abs64 is_slot
    reloc_type strip_version_suffix read write read_host write_host write_bytes read_bytes
    find_region holds_range little_endian from_bytes add64
all_succeed = refl

process_relocations-Applied_example :
    Applied no_cpu imports 8192 manager
      (process_relocations no_cpu fresh imports 8192 entries).0.memory
      entries
process_relocations-Applied_example =
    process_relocations-Applied no_cpu imports 8192 fresh entries refl apart_in_host separate
      all_succeed

process_relocations-failures_example :
    let out = process_relocations no_cpu fresh (some (λ name. 0)) 8192 entries in
    (out.0.failed_count ≡ 0 + failures no_cpu (some (λ name. 0)) 8192 fresh entries)
    × (out.1 ≡ (0 == 0) && (failures no_cpu (some (λ name. 0)) 8192 fresh entries == 0))
process_relocations-failures_example =
    process_relocations-failures no_cpu (some (λ name. 0)) 8192 fresh entries
