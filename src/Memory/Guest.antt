-- ===== src/Memory/Guest.antt =====
-- Guest allocations of MemoryManager (src/memory_manager.cpp): the fixed heap first, and pages
-- mapped above it when the heap has no room.
use cross_shim.Base.{
  ℕ, zero, suc, ◌+◌, ◌-◌, ◌^◌, min, max, Bool, true, false, Option, none, some, ltb, leb, ◌==◌,
  if◌then◌else◌,
}
use cross_shim.Base.Word.{add64, align_up}
use cross_shim.Container.Dict
use cross_shim.Heap
use cross_shim.Heap.{at_least_one}
use cross_shim.Memory.{MemoryManager, page_size, read, write, map, unmap}
use cross_shim.Memory.Host.{Qemu}

abbrev pub copy_chunk : ℕ
copy_chunk = 2 ^ 20

module _ {G : Type 0} where
  -- What the manager remembers of a new dynamic allocation, if its pages could be mapped.
  unfoldable pub record_dynamic : ℕ → ℕ → MemoryManager G × Bool → MemoryManager G × ℕ
  record_dynamic address aligned_size (m, false) = (m, 0)
  record_dynamic address aligned_size (m, true) = (
    record m {
      dynamic_allocations = Dict.insert address aligned_size m.dynamic_allocations;
      next_dynamic_alloc = add64 address aligned_size;
    },
    address,
  )

  unfoldable pub get_guest_allocation_size : MemoryManager G → ℕ → ℕ
  get_guest_allocation_size m a =
      let heap_size = Heap.get_allocation_size m.heap a in
      if heap_size == 0
      then elim (Dict.lookup a m.dynamic_allocations) [ none ↦ 0 | some size ↦ size ]
      else heap_size

  unfoldable pub free_guest_memory : MemoryManager G → ℕ → MemoryManager G
  free_guest_memory m a = if a == 0 then m else elim (Dict.lookup a m.dynamic_allocations) [
    | none ↦ record m { heap = Heap.free m.heap a }
    | some size ↦
        (unmap (record m { dynamic_allocations = Dict.erase a m.dynamic_allocations }) a size).0
  ]

  module _ (q : Qemu G) where
    unfoldable pub map_dynamic : MemoryManager G → ℕ → ℕ → Option ℕ → MemoryManager G × ℕ
    unfolding record_dynamic
    map_dynamic m size alignment fresh =
        let aligned_size = align_up size page_size in
        let address = align_up m.next_dynamic_alloc (max alignment page_size) in
        record_dynamic address aligned_size (map q m address aligned_size 3 fresh)

    -- `fresh` is what mmap returns if it is called.
    unfoldable pub allocate_guest_memory : MemoryManager G → ℕ → ℕ → Option ℕ → MemoryManager G × ℕ
    unfolding map_dynamic
    allocate_guest_memory m size alignment fresh =
        let n = at_least_one size in
        let (heap, ptr) = Heap.allocate m.heap n alignment in
        let m' = record m { heap = heap } in
        if ptr == 0 then map_dynamic m' n alignment fresh else (m', ptr)

    -- The loop that copies the old bytes, on fuel: the manager so far, and whether all went well.
    unfoldable pub copy_loop : ℕ → MemoryManager G → ℕ → ℕ → ℕ → ℕ → MemoryManager G × Bool
    copy_loop zero m from to old_size offset = (m, false)
    copy_loop (suc fuel) m from to old_size offset = elim (ltb offset old_size) [
      | false ↦ (m, true)
      | true ↦
          let chunk = min (old_size - offset) copy_chunk in
          elim (read q m (add64 from offset) chunk) [
            | none ↦ (m, false)
            | some bytes ↦ elim (write q m (add64 to offset) bytes) [
              | none ↦ (m, false)
              | some m' ↦ copy_loop fuel m' from to old_size (offset + chunk)
            ]
          ]
    ]

    -- The last part of realloc_guest_memory, with the new block in hand.
    unfoldable pub move_to : MemoryManager G → ℕ → ℕ → ℕ → Bool → MemoryManager G × ℕ
    unfolding copy_loop
    move_to m a old_size new_addr copy_contents =
        let (m', done) =
          if copy_contents then copy_loop (suc old_size) m a new_addr old_size 0 else (m, true) in
        if done then (free_guest_memory m' a, new_addr) else (free_guest_memory m' new_addr, 0)

    unfoldable pub realloc_guest_memory :
        MemoryManager G → ℕ → ℕ → Bool → Option ℕ → MemoryManager G × ℕ
    unfolding move_to
    realloc_guest_memory m a new_size copy_contents fresh =
        let old_size = get_guest_allocation_size m a in
        if a == 0
        then allocate_guest_memory m new_size 16 fresh
        else if new_size == 0
        then (free_guest_memory m a, 0)
        else if old_size == 0
        then (m, 0)
        else if leb new_size old_size
        then (m, a)
        else (let (m', new_addr) = allocate_guest_memory m new_size 16 fresh in
            if new_addr == 0 then (m', 0) else move_to m' a old_size new_addr copy_contents)
