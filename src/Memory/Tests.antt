-- ===== src/Memory/Tests.antt =====
-- The theorems of the memory manager at a concrete manager.
use cross_shim.Base.{
  ℕ, ◌==◌, if◌then◌else◌, ◌%◌, ◌≡◌, refl, true, false, none, some, [], ◌∷◌, ◌⊎◌, inl, arith,
  replicate,
}
use cross_shim.Base.Word.{add64}
use cross_shim.Container.Dict.{lookup}
use cross_shim.Heap.{at_least_one}
use cross_shim.Heap.Tests.{small, small-IsValid}
use cross_shim.Memory.Mapping.{unmap-map}
use cross_shim.Memory.{
  MemoryManager, map, unmap, read, write, write_host, zero_memory, dynamic_alloc_base,
}
use cross_shim.Memory.Host.{Qemu, write_bytes}
use cross_shim.Memory.Region.{MemoryRegion, find_region, holds_range}
use cross_shim.Memory.ReadWrite.{RegionsValid, read-write, read-write-Apart}
use cross_shim.Memory.Zero.{Separate, zero_memory-write}
use cross_shim.Memory.Copy.{copy_loop-read}
use cross_shim.Memory.Guest.{copy_loop, allocate_guest_memory, free_guest_memory}
use cross_shim.Memory.Owned.{GuestValid, GuestFits, Got}
use cross_shim.Memory.Allocate.{
  Freed, RegionsFreed, allocate_guest_memory-Got, free_guest_memory-Freed,
}

-- QEMU before its processor exists: it refuses every access.
abbrev pub no_cpu : Qemu (Unit {0})
no_cpu = record {
  has_cpu = λ g. false;
  has_first_cpu = λ g. false;
  rw_read = λ g a n. none;
  rw_write = λ g a bs. (g, false);
  target_mmap = λ g a n p. g;
}

abbrev pub heap_region : MemoryRegion
heap_region = record {
  address = 4096;
  size = 65536;
  perms = 3;
  host_ptr = 1000000;
  is_shared = false;
}

abbrev pub stack_region : MemoryRegion
stack_region = record {
  address = 131072;
  size = 4096;
  perms = 3;
  host_ptr = 2000000;
  is_shared = false;
}

abbrev pub manager : MemoryManager (Unit {0})
manager = record {
  regions = heap_region ∷ stack_region ∷ [];
  heap = small;
  dynamic_allocations = [];
  next_dynamic_alloc = dynamic_alloc_base;
  qemu_ready = false;
  guest_base = 0;
  host = λ p. p % 256;
  host_maps = (1000000, 65536) ∷ (2000000, 4096) ∷ [];
  guest = tt;
}

abbrev written : MemoryManager (Unit {0})
written = record manager { host = write_bytes manager.host 1000004 (7 ∷ 8 ∷ []) }

abbrev page : ℕ
page = 3000000

pub apart_in_host : RegionsValid manager.regions
apart_in_host = (omega arith, (inl (omega arith), tt), (omega arith, tt, tt))

pub apart_in_guest : Separate manager.regions
apart_in_guest = (omega arith, (inl (omega arith), tt), (omega arith, tt, tt))

write_ok : write no_cpu manager 4100 (7 ∷ 8 ∷ []) ≡ some written
unfolding write write_host find_region holds_range add64
write_ok = refl

read-write_example : read no_cpu written 4100 2 ≡ some (7 ∷ 8 ∷ [])
read-write_example = read-write no_cpu manager written 4100 (7 ∷ 8 ∷ []) refl write_ok

read-write-Apart_example : read no_cpu written 131072 3 ≡ read no_cpu manager 131072 3
read-write-Apart_example =
    read-write-Apart no_cpu manager written 4100 131072 3 (7 ∷ 8 ∷ []) refl apart_in_host
      (omega arith) (omega arith) (inl (omega arith)) write_ok

heap_found : find_region (holds_range 4096 70) manager.regions ≡ some heap_region
unfolding find_region holds_range add64
heap_found = refl

zero_memory-write_example :
    ((zero_memory no_cpu manager 4096 70).1 ≡ true)
    × (write no_cpu manager 4096 (replicate 70 0) ≡ some (zero_memory no_cpu manager 4096 70).0)
zero_memory-write_example =
    zero_memory-write no_cpu manager 4096 70 heap_region refl apart_in_guest (omega arith)
      heap_found

pub manager-GuestValid : GuestValid manager
unfolding lookup
manager-GuestValid = record {
  heap = small-IsValid;
  below = omega arith;
  next = omega arith;
  pages = λ a s e. ground arith;
  apart = λ a s b t w e f. ground arith;
}

pub manager_fits : GuestFits manager 100 16
manager_fits = record {
  fits = record { power = (4, omega arith, refl); nonzero = omega arith; room = omega arith };
  room = omega arith;
}

allocate_guest_memory-Got_example :
    let out = allocate_guest_memory no_cpu manager 100 16 (some page) in
    Got manager (at_least_one 100) 16 out.1 out.0 ⊎ ((some page ≡ none) × (out ≡ (manager, 0)))
allocate_guest_memory-Got_example =
    allocate_guest_memory-Got no_cpu manager 100 16 (some page) manager-GuestValid manager_fits

small_owned : lookup 4096 small.allocations ≡ some 32
unfolding lookup
small_owned = refl

free_guest_memory-Freed_example :
    Freed manager 4096 (free_guest_memory manager 4096)
    × RegionsFreed manager 4096 32 (free_guest_memory manager 4096)
free_guest_memory-Freed_example =
    free_guest_memory-Freed manager 4096 32 manager-GuestValid (inl small_owned)

stack_found : find_region (holds_range 131072 70) manager.regions ≡ some stack_region
unfolding find_region holds_range add64
stack_found = refl

copy_loop-read_example :
    let out = copy_loop no_cpu 71 manager 4096 131072 70 0 in
    (out.1 ≡ true) × (read no_cpu out.0 131072 70 ≡ read no_cpu manager 4096 70)
copy_loop-read_example =
    copy_loop-read no_cpu 4096 131072 70 heap_region stack_region (omega arith, omega arith)
      (inl (omega arith)) manager refl apart_in_guest heap_found stack_found

unmap-map_example :
    let out = unmap (map no_cpu manager 262144 8192 3 (some 3000000)).0 262144 8192 in
    (out.1 ≡ true)
    × (out.0.regions ≡ manager.regions)
    × ((x : ℕ)
        → lookup x out.0.host_maps ≡ (if 3000000 == x then none else lookup x manager.host_maps))
unmap-map_example = unmap-map no_cpu manager 262144 8192 3 3000000 (refl, (refl, tt)) (ground arith)
