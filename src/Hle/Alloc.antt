-- ===== src/Hle/Alloc.antt =====
-- malloc, calloc, realloc, free, posix_memalign, aligned_alloc, mmap, mmap64 and munmap of
-- src/hle/hle_memory.cpp: what each handler does with the guest's memory, the budget of mappings,
-- X0 and errno. `fresh` is what the host's mmap returns, if a handler reaches it.
pub mod Aligned
pub mod Calloc
pub mod Mmap
use cross_shim.Base.{
  ℕ, zero, suc, ◌+◌, ◌-◌, ◌^◌, ◌/◌, ◌%◌, Bool, true, false, ◌||◌, ◌&&◌, not, Option, none, some,
  List, [], ◌∷◌, ltb, leb, ◌==◌, if◌then◌else◌,
}
use Prim.Native.Nat.{bit_and}
use cross_shim.Base.Word.{u64_mod, add64, mul64}
use cross_shim.Memory.{MemoryManager, write, zero_memory}
use cross_shim.Memory.Host.{Qemu}
use cross_shim.Memory.Words.{little_endian}
use cross_shim.Memory.Guest.{
  get_guest_allocation_size, free_guest_memory, allocate_guest_memory, realloc_guest_memory,
}
use cross_shim.Hle.Vma.{VmaState, try_reserve_vmas, release_vmas}

abbrev pub einval : ℕ
einval = 22

abbrev pub enomem : ℕ
enomem = 12

abbrev pub minus_one : ℕ
minus_one = u64_mod - 1

-- The greatest intptr_t.
abbrev pub intptr_max : ℕ
intptr_max = 2 ^ 63 - 1

-- The parts of the emulator that the handlers change.
pub record Process (G : Type 0) : Type 0 where
  pub memory : MemoryManager G
  pub vmas : VmaState
  -- g_next_mmap_reservation_key
  pub next_key : ℕ

-- What a handler leaves: X0, and the error number that it stores, 0 if it stores none.
pub record Reply (G : Type 0) : Type 0 where
  pub process : Process G
  pub x0 : ℕ
  pub errno : ℕ

unfoldable pub is_power_of_two : ℕ → Bool
is_power_of_two value = not (value == 0) && (bit_and value (value - 1) == 0)

module _ {G : Type 0} where
  abbrev pub reply : Process G → MemoryManager G → ℕ → ℕ → Reply G
  reply p m x0 errno = record { process = record p { memory = m }; x0 = x0; errno = errno }

  unfoldable pub free : Process G → ℕ → Process G
  free p ptr = if ptr == 0 then p else record p { memory = free_guest_memory p.memory ptr }

  unfoldable pub munmap : Process G → ℕ → Reply G
  munmap p addr = record {
    process = record p {
      memory = if addr == 0 then p.memory else free_guest_memory p.memory addr;
      vmas = release_vmas p.vmas addr;
    };
    x0 = 0;
    errno = 0;
  }

  module _ (q : Qemu G) where
    unfoldable pub malloc : Process G → ℕ → Option ℕ → Reply G
    malloc p size fresh =
        let (m, ptr) = allocate_guest_memory q p.memory size 16 fresh in reply p m ptr 0

    unfoldable pub calloc : Process G → ℕ → ℕ → Option ℕ → Reply G
    calloc p nmemb size fresh =
        let total = mul64 nmemb size in
        let (m, ptr) = allocate_guest_memory q p.memory total 16 fresh in
        reply p (if ptr == 0 then m else (zero_memory q m ptr total).0) ptr 0

    unfoldable pub realloc : Process G → ℕ → ℕ → Option ℕ → Reply G
    realloc p old_ptr new_size fresh =
        let old_size = get_guest_allocation_size p.memory old_ptr in
        if old_ptr == 0
        then (let (m, ptr) = allocate_guest_memory q p.memory new_size 16 fresh in reply p m ptr 0)
        else if new_size == 0
        then reply p (free_guest_memory p.memory old_ptr) 0 0
        else if old_size == 0
        then reply p p.memory 0 0
        else if leb new_size old_size
        then reply p p.memory old_ptr 0
        else (let (m, ptr) = realloc_guest_memory q p.memory old_ptr new_size true fresh in
            reply p m ptr 0)

    -- mem_write: its result is not looked at, so a failed write leaves the memory as it is.
    pub store_pointer : MemoryManager G → ℕ → ℕ → MemoryManager G
    store_pointer m memptr ptr = elim (write q m memptr (little_endian 8 ptr)) [
      | none ↦ m
      | some m' ↦ m'
    ]

    unfoldable pub posix_memalign : Process G → ℕ → ℕ → ℕ → Option ℕ → Reply G
    unfolding store_pointer
    posix_memalign p memptr alignment size fresh =
        let (m, ptr) = allocate_guest_memory q p.memory size alignment fresh in
        if (memptr == 0)
          || ltb alignment 8
          || not (is_power_of_two alignment)
          || not (alignment % 8 == 0)
        then reply p p.memory einval 0
        else if ltb intptr_max size
        then reply p p.memory enomem 0
        else if ptr == 0
        then reply p m enomem 0
        else reply p (store_pointer m memptr ptr) 0 0

    unfoldable pub aligned_alloc : Process G → ℕ → ℕ → Option ℕ → Reply G
    aligned_alloc p alignment size fresh =
        let (m, ptr) = allocate_guest_memory q p.memory size alignment fresh in
        if not (is_power_of_two alignment) || ltb intptr_max size
        then reply p p.memory 0 (if not (is_power_of_two alignment) then einval else enomem)
        else if not (size % alignment == 0)
        then reply p p.memory 0 einval
        else if ptr == 0
        then reply p m 0 enomem
        else reply p m ptr 0

    -- The part of mmap once the budget has been reserved under `key`.
    unfoldable pub mmap_reserved : Process G → ℕ → ℕ → Option ℕ → Reply G
    mmap_reserved p key length fresh =
        let (m, ptr) = allocate_guest_memory q p.memory length 4096 fresh in
        let released = release_vmas p.vmas key in
        if ptr == 0
        then record {
          process = record p { memory = m; vmas = released };
          x0 = minus_one;
          errno = enomem;
        }
        else record {
          process = record p {
            memory = (zero_memory q m ptr length).0;
            vmas = (try_reserve_vmas released ptr 1).0;
          };
          x0 = ptr;
          errno = 0;
        }

    -- mmap and mmap64, which differ in no call: the address asked for is not read.
    unfoldable pub mmap : Process G → ℕ → Option ℕ → Reply G
    unfolding mmap_reserved
    mmap p length fresh =
        let key = p.next_key in
        let (vmas, reserved) = try_reserve_vmas p.vmas key 1 in
        let p' = record p { vmas = vmas; next_key = add64 key 4096 } in
        if reserved
        then mmap_reserved p' key length fresh
        else record { process = p'; x0 = minus_one; errno = enomem }
