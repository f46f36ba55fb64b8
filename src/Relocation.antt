-- ===== src/Relocation.antt =====
-- RelocationHandler of include/relocation_handler.h and src/relocation_handler.cpp, over the memory of
-- MemoryManager. Names of symbols are lists of bytes; the resolver of the imports is a parameter,
-- `none` for an empty std::function.
pub mod Single
pub mod Applied
mod Tests
use cross_shim.Base.{
  ℕ, zero, suc, ◌+◌, ◌%◌, ◌^◌, Bool, true, false, ◌&&◌, ◌||◌, not, Option, none, some, List, [],
  ◌∷◌, ◌++◌, ◌==◌, if◌then◌else◌,
}
use cross_shim.Base.Word.{add64}
use cross_shim.Memory.{MemoryManager, read, write}
use cross_shim.Memory.Host.{Qemu}
use cross_shim.Memory.Words.{little_endian, from_bytes}

abbrev pub r_aarch64_none : ℕ
r_aarch64_none = 0

abbrev pub r_aarch64_abs64 : ℕ
r_aarch64_abs64 = 257

abbrev pub r_aarch64_glob_dat : ℕ
r_aarch64_glob_dat = 1025

abbrev pub r_aarch64_jump_slot : ℕ
r_aarch64_jump_slot = 1026

abbrev pub r_aarch64_relative : ℕ
r_aarch64_relative = 1027

abbrev pub r_aarch64_irelative : ℕ
r_aarch64_irelative = 1032

-- What ElfLoader::get_relocations returns for each entry.
pub record Relocation : Type 0 where
  pub offset : ℕ
  pub kind : ℕ
  pub addend : ℕ
  pub symbol_name : List ℕ
  pub symbol_value : ℕ

abbrev pub SymbolResolver : Type 0
SymbolResolver = Option (List ℕ → ℕ)

pub record RelocationHandler (G : Type 0) : Type 0 where
  pub memory : MemoryManager G
  pub processed_count : ℕ
  pub failed_count : ℕ
  pub unresolved : List (List ℕ)

-- The name up to the first `@`, which is 64.
unfoldable pub strip_version_suffix : List ℕ → List ℕ
strip_version_suffix [] = []
strip_version_suffix (c ∷ cs) =
    let rest = strip_version_suffix cs in if c == 64 then [] else c ∷ rest

unfoldable pub is_empty : List ℕ → Bool
is_empty [] = true
is_empty (c ∷ cs) = false

-- With its original name first, then without the version.
unfoldable pub look_up : (List ℕ → ℕ) → List ℕ → ℕ
unfolding strip_version_suffix
look_up resolve name =
    let value = resolve name in if value == 0 then resolve (strip_version_suffix name) else value

-- The address of a relocation's symbol, 0 if it is not known.
unfoldable pub symbol_address : SymbolResolver → ℕ → List ℕ → ℕ → ℕ
unfolding is_empty look_up
symbol_address none base name value = if value == 0 then value else add64 value base
symbol_address (some resolve) base name value =
    if value == 0 then (if is_empty name then value else look_up resolve name) else add64 value base

-- The type without the marks of the architecture.
unfoldable pub reloc_type : Relocation → ℕ
reloc_type r = r.kind % 2 ^ 16

unfoldable pub is_relative : Relocation → Bool
unfolding reloc_type
is_relative r = (reloc_type r == r_aarch64_relative) || (reloc_type r == r_aarch64_irelative)

-- GLOB_DAT and JUMP_SLOT, which differ in what they log.
unfoldable pub is_slot : Relocation → Bool
unfolding reloc_type
is_slot r = (reloc_type r == r_aarch64_glob_dat) || (reloc_type r == r_aarch64_jump_slot)

unfoldable pub is_abs64 : Relocation → Bool
unfolding reloc_type
is_abs64 r = reloc_type r == r_aarch64_abs64

module _ {G : Type 0} where
  -- The symbol is not known.
  unfoldable pub add_unresolved : RelocationHandler G → List ℕ → ℕ → RelocationHandler G
  unfolding is_empty
  add_unresolved h name value =
      if (value == 0) && not (is_empty name)
      then record h { unresolved = h.unresolved ++ name ∷ [] }
      else h

  unfoldable pub count : RelocationHandler G × Bool → RelocationHandler G
  count (h, true) = record h { processed_count = h.processed_count + 1 }
  count (h, false) = record h { failed_count = h.failed_count + 1 }

  module _ (q : Qemu G) where
    unfoldable pub write_word : RelocationHandler G → ℕ → ℕ → RelocationHandler G × Bool
    write_word h address value = elim (write q h.memory address (little_endian 8 value)) [
      | none ↦ (h, false)
      | some m ↦ (record h { memory = m }, true)
    ]

    -- apply_abs64, apply_glob_dat and apply_jump_slot
    unfoldable pub apply_symbol : RelocationHandler G → ℕ → ℕ → ℕ → RelocationHandler G × Bool
    unfolding write_word
    apply_symbol h address value addend = write_word h address (add64 value addend)

    -- The addend 0 stands for the one in the word that is relocated.
    unfoldable pub apply_relative : RelocationHandler G → ℕ → ℕ → ℕ → RelocationHandler G × Bool
    unfolding write_word
    apply_relative h address base addend =
        if addend == 0
        then elim (read q h.memory address 8) [
          | none ↦ (h, false)
          | some existing ↦ write_word h address (add64 base (from_bytes existing))
        ]
        else write_word h address (add64 base addend)

    unfoldable pub process_relocation :
        RelocationHandler G → SymbolResolver → ℕ → Relocation → RelocationHandler G × Bool
    unfolding is_relative is_slot is_abs64 symbol_address is_empty add_unresolved apply_symbol
        apply_relative
    process_relocation h resolver base r =
        let address = add64 base r.offset in
        let value = symbol_address resolver base r.symbol_name r.symbol_value in
        if is_relative r
        then apply_relative h address base r.addend
        else if is_abs64 r
        then (if (value == 0) && not (is_empty r.symbol_name)
            then (add_unresolved h r.symbol_name value, false)
            else apply_symbol h address value r.addend)
        else if is_slot r
        then apply_symbol (add_unresolved h r.symbol_name value) address value r.addend
        else (h, true)

    unfoldable pub process_all :
        RelocationHandler G → SymbolResolver → ℕ → List Relocation → RelocationHandler G
    unfolding process_relocation count
    process_all h resolver base [] = h
    process_all h resolver base (r ∷ rs) =
        process_all (count (process_relocation h resolver base r)) resolver base rs

    unfoldable pub process_relocations :
        RelocationHandler G → SymbolResolver → ℕ → List Relocation → RelocationHandler G × Bool
    unfolding process_all
    process_relocations h resolver base rs =
        let h' = process_all h resolver base rs in (h', h'.failed_count == 0)
