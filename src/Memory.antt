-- ===== src/Memory.antt =====
-- MemoryManager of include/memory_manager.h and src/memory_manager.cpp. The host's memory is a
-- store of bytes; what mmap returns is an argument of the calls that reach it, `none` for
-- MAP_FAILED. QEMU is the parameter `q`. Locks and log lines are left out.
pub mod Host
pub mod Region
pub mod Guest
pub mod Bytes
pub mod Words
pub mod ReadWrite
pub mod Running
pub mod Zero
pub mod Mapping
pub mod Unmapping
pub mod Owned
pub mod Allocate
pub mod Copy
pub mod Tests
use cross_shim.Base.{
  ℕ, zero, suc, ◌+◌, ◌-◌, ◌^◌, min, max, Bool, true, false, ◌&&◌, not, Option, none, some, List, [],
  ◌∷◌, ◌++◌, ltb, leb, ◌==◌, if◌then◌else◌, length, replicate,
}
use cross_shim.Base.Word.{add64, sub64, align_down, align_up}
use cross_shim.Container.Dict
use cross_shim.Heap
use cross_shim.Heap.{HeapAllocator}
use Region.{
  MemoryRegion, release_host, release_all, has_address, any_region, holds_range, find_region,
  region_ptr, remove_region,
}
use Host.{Qemu, read_bytes, write_bytes, prot_of}

abbrev pub page_size : ℕ
page_size = 4096

abbrev pub zero_chunk : ℕ
zero_chunk = 2 ^ 20

abbrev pub dynamic_alloc_base : ℕ
dynamic_alloc_base = 0x200000000

pub record MemoryManager (G : Type 0) : Type 0 where
  pub regions : List MemoryRegion
  pub heap : HeapAllocator
  pub dynamic_allocations : List (ℕ × ℕ)
  pub next_dynamic_alloc : ℕ
  pub qemu_ready : Bool
  pub guest_base : ℕ
  -- The world outside: the host's bytes, the host mappings that mmap made and munmap has not
  -- undone, and QEMU's guest memory.
  pub host : ℕ → ℕ
  pub host_maps : List (ℕ × ℕ)
  pub guest : G

module _ {G : Type 0} where
  unfoldable pub init : ℕ → ℕ → (ℕ → ℕ) → G → MemoryManager G
  init heap_base heap_size host guest = record {
    regions = [];
    heap = Heap.init heap_base heap_size;
    dynamic_allocations = [];
    next_dynamic_alloc = dynamic_alloc_base;
    qemu_ready = false;
    guest_base = 0;
    host = host;
    host_maps = [];
    guest = guest;
  }

  unfoldable pub destroy : MemoryManager G → MemoryManager G
  unfolding release_all release_host
  destroy m = record m { host_maps = release_all m.regions m.host_maps }

  unfoldable pub guest_to_host : MemoryManager G → ℕ → ℕ
  guest_to_host m a = if m.qemu_ready then add64 m.guest_base a else 0

  unfoldable pub is_mapped : MemoryManager G → ℕ → Bool
  unfolding any_region has_address
  is_mapped m a = any_region (has_address a) m.regions

  unfoldable pub is_mapped_range : MemoryManager G → ℕ → ℕ → Bool
  unfolding is_mapped
  is_mapped_range m a size = is_mapped m a && is_mapped m (sub64 (add64 a size) 1)

  -- The fallback of `read`, from host memory.
  unfoldable pub read_host : MemoryManager G → ℕ → ℕ → Option (List ℕ)
  unfolding find_region holds_range
  read_host m a size = elim (find_region (holds_range a size) m.regions) [
    | none ↦ none
    | some r ↦ some (read_bytes m.host (r.host_ptr + (a - r.address)) size)
  ]

  unfoldable pub write_host : MemoryManager G → ℕ → List ℕ → Option (MemoryManager G)
  unfolding find_region holds_range
  write_host m a bytes = elim (find_region (holds_range a (length bytes)) m.regions) [
    | none ↦ none
    | some r ↦ some (record m { host = write_bytes m.host (r.host_ptr + (a - r.address)) bytes })
  ]

  unfoldable pub get_host_ptr : MemoryManager G → ℕ → ℕ
  unfolding region_ptr find_region has_address
  get_host_ptr m a =
      if m.qemu_ready && (m.guest_base == 0)
      then a
      else region_ptr a (find_region (λ r. has_address a r && not (r.host_ptr == 0)) m.regions)

  unfoldable pub map_shared : MemoryManager G → ℕ → ℕ → ℕ → ℕ → MemoryManager G
  map_shared m a size perms host_ptr = record m { regions = m.regions ++ region ∷ [] }
    where
      region : MemoryRegion
      region = record {
        address = a;
        size = size;
        perms = perms;
        host_ptr = host_ptr;
        is_shared = true;
      }

  -- `false` and no change if there is no such region.
  unfoldable pub unmap : MemoryManager G → ℕ → ℕ → MemoryManager G × Bool
  unfolding remove_region release_host
  unmap m a size = elim (remove_region a size m.regions) [
    | none ↦ (m, false)
    | some (r, rs) ↦ (record m { regions = rs; host_maps = release_host r m.host_maps }, true)
  ]

  module _ (q : Qemu G) where
    unfoldable pub read : MemoryManager G → ℕ → ℕ → Option (List ℕ)
    unfolding read_host
    read m a size =
        if m.qemu_ready && q.has_cpu m.guest
        then elim (q.rw_read m.guest a size) [ some bytes ↦ some bytes | none ↦ read_host m a size ]
        else read_host m a size

    -- `none` is the result `false`.
    unfoldable pub write : MemoryManager G → ℕ → List ℕ → Option (MemoryManager G)
    unfolding write_host
    write m a bytes =
        if m.qemu_ready && q.has_cpu m.guest
        then (let (g, done) = q.rw_write m.guest a bytes in
            let m' = record m { guest = g } in if done then some m' else write_host m' a bytes)
        else write_host m a bytes

    -- The loop of `zero`, on fuel; a chunk is never longer than the vector of zeros. The chunks that
    -- were written stay when a later one fails.
    unfoldable pub zero_loop : ℕ → MemoryManager G → ℕ → ℕ → ℕ → ℕ → MemoryManager G × Bool
    zero_loop zero m a size chunk_size offset = (m, false)
    zero_loop (suc fuel) m a size chunk_size offset = elim (ltb offset size) [
      | false ↦ (m, true)
      | true ↦
          let chunk = min (size - offset) chunk_size in
          elim (write m (add64 a offset) (replicate chunk 0)) [
            | none ↦ (m, false)
            | some m' ↦ zero_loop fuel m' a size chunk_size (offset + chunk)
          ]
    ]

    unfoldable pub zero_memory : MemoryManager G → ℕ → ℕ → MemoryManager G × Bool
    unfolding zero_loop
    zero_memory m a size = zero_loop (suc size) m a size (min size zero_chunk) 0

    map_guest : MemoryManager G → ℕ → ℕ → ℕ → MemoryManager G
    map_guest m a size perms =
        if m.qemu_ready
        then record m { guest = q.target_mmap m.guest a size (prot_of perms) }
        else m

    unfoldable pub map : MemoryManager G → ℕ → ℕ → ℕ → Option ℕ → MemoryManager G × Bool
    unfolding map_guest
    map m a size perms none = (m, false)
    map m a size perms (some host_ptr) = (map_guest mapped a size perms, true)
      where
        region : MemoryRegion
        region = record {
          address = a;
          size = size;
          perms = perms;
          host_ptr = host_ptr;
          is_shared = false;
        }

        mapped : MemoryManager G
        mapped = record m {
          regions = m.regions ++ region ∷ [];
          host = write_bytes m.host host_ptr (replicate size 0);
          host_maps = Dict.insert host_ptr size m.host_maps;
        }

    unfoldable pub map_aligned : MemoryManager G → ℕ → ℕ → ℕ → Option ℕ → MemoryManager G × Bool
    unfolding map
    map_aligned m a size perms fresh =
        let aligned_addr = align_down a page_size in
        let aligned_size = align_up (add64 size (sub64 a aligned_addr)) page_size in
        map m aligned_addr aligned_size perms fresh

    -- One region of the loop of set_qemu_ready: map it in the guest and copy its bytes there.
    sync_region : Bool → MemoryManager G → MemoryRegion → MemoryManager G
    sync_region skip_null m r =
        if (r.host_ptr == 0)
        then m
        else if r.size == 0
        then m
        else let g = q.target_mmap m.guest r.address r.size (prot_of r.perms) in
          let mapped = record m { guest = g } in
          if skip_null && (r.address == 0)
          then mapped
          else record m { guest = (q.rw_write g r.address (read_bytes m.host r.host_ptr r.size)).0 }

    sync_all : Bool → MemoryManager G → List MemoryRegion → MemoryManager G
    sync_all skip_null m [] = m
    sync_all skip_null m (r ∷ rs) = sync_all skip_null (sync_region skip_null m r) rs

    unfoldable pub set_qemu_ready : MemoryManager G → ℕ → MemoryManager G
    unfolding sync_all sync_region
    set_qemu_ready m base =
        let ready = record m { guest_base = base; qemu_ready = true } in
        if q.has_first_cpu m.guest then sync_all (base == 0) ready m.regions else ready
