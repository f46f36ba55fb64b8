-- ===== src/Heap.antt =====
-- HeapAllocator of include/memory_manager.h and src/memory_manager.cpp.
pub mod Invariant
pub mod Join
pub mod Merge
pub mod Fit
pub mod Allocate
pub mod Release
pub mod Overflow
pub mod Reach
pub mod Tests
use cross_shim.Base.{ℕ, Option, none, some, List, [], ◌∷◌, ltb, leb, ◌==◌, if◌then◌else◌}
use cross_shim.Base.Word.{add64, sub64, align_up}
use cross_shim.Container.Dict
use cross_shim.Container.MultiMap
use cross_shim.Container.MultiMap.{Pairs}

pub record HeapAllocator : Type 0 where
  pub base : ℕ
  pub size : ℕ
  pub high_water_mark : ℕ
  pub allocations : List (ℕ × ℕ)
  pub free_blocks : List (ℕ × ℕ)
  pub free_blocks_by_size : Pairs

unfoldable pub init : ℕ → ℕ → HeapAllocator
init base size = record {
  base = base;
  size = size;
  high_water_mark = base;
  allocations = [];
  free_blocks = [];
  free_blocks_by_size = [];
}

-- Both indices.
pub remove_free_block : HeapAllocator → ℕ → ℕ → HeapAllocator
remove_free_block h address size = record h {
  free_blocks = Dict.erase address h.free_blocks;
  free_blocks_by_size = MultiMap.erase size address h.free_blocks_by_size;
}

pub put_free_block : HeapAllocator → ℕ → ℕ → HeapAllocator
put_free_block h address size = record h {
  free_blocks = Dict.insert address size h.free_blocks;
  free_blocks_by_size = MultiMap.insert size address h.free_blocks_by_size;
}

-- Merge with the predecessor, if it ends where the block begins: the heap without it, and the
-- block so far.
pub merge_prev : HeapAllocator → ℕ → ℕ → Option (ℕ × ℕ) → HeapAllocator × ℕ × ℕ
merge_prev h address size none = (h, address, size)
merge_prev h address size (some (prev_addr, prev_size)) =
    if add64 prev_addr prev_size == address
    then (remove_free_block h prev_addr prev_size, prev_addr, add64 prev_size size)
    else (h, address, size)

-- Merge with the successor, if the block so far ends where it begins; then insert the block.
pub merge_next : HeapAllocator × ℕ × ℕ → Option (ℕ × ℕ) → HeapAllocator
merge_next (h, new_addr, new_size) none = put_free_block h new_addr new_size
merge_next (h, new_addr, new_size) (some (next_addr, next_size)) =
    if add64 new_addr new_size == next_addr
    then put_free_block (remove_free_block h next_addr next_size) new_addr
        (add64 new_size next_size)
    else put_free_block h new_addr new_size

-- `next` is the iterator found before any block is removed.
unfoldable pub add_free_block : HeapAllocator → ℕ → ℕ → HeapAllocator
unfolding remove_free_block put_free_block merge_prev merge_next
add_free_block h address size =
    merge_next (merge_prev h address size (Dict.prev_of address h.free_blocks))
      (Dict.next_of address h.free_blocks)

-- The loop over the size index from `lower_bound`: the first block that has room behind the
-- padding, as its size and address.
unfoldable pub find_fit : ℕ → ℕ → Pairs → Option (ℕ × ℕ)
find_fit alloc_size alignment [] = none
find_fit alloc_size alignment ((block_size, block_addr) ∷ rest) =
    let padding = sub64 (align_up block_addr alignment) block_addr in
    let later = find_fit alloc_size alignment rest in
    if leb (add64 alloc_size padding) block_size then some (block_size, block_addr) else later

pub give_back : HeapAllocator → ℕ → ℕ → ℕ → HeapAllocator
give_back h least address size = if leb least size then add_free_block h address size else h

pub track : HeapAllocator → ℕ → ℕ → HeapAllocator
track h address size = record h { allocations = Dict.insert address size h.allocations }

-- The body of the loop for the block that fits.
pub carve : HeapAllocator → ℕ → ℕ → ℕ → ℕ → HeapAllocator × ℕ
unfolding give_back track remove_free_block
carve h alloc_size alignment block_size block_addr =
    let result = align_up block_addr alignment in
    let padding = sub64 result block_addr in
    let remaining = sub64 (sub64 block_size alloc_size) padding in
    let h1 = remove_free_block h block_addr block_size in
    let h2 = give_back h1 1 block_addr padding in
    let h3 = give_back h2 16 (add64 result alloc_size) remaining in
    (track h3 result alloc_size, result)

-- No block fits: allocate from the high water mark. The result 0 means out of memory.
pub extend : HeapAllocator → ℕ → ℕ → HeapAllocator × ℕ
unfolding track
extend h alloc_size alignment =
    let aligned = align_up h.high_water_mark alignment in
    if ltb (add64 h.base h.size) (add64 aligned alloc_size) then (h, 0) else (
      track (record h { high_water_mark = add64 aligned alloc_size }) aligned alloc_size,
      aligned,
    )

pub choose : HeapAllocator → ℕ → ℕ → Option (ℕ × ℕ) → HeapAllocator × ℕ
choose h alloc_size alignment none = extend h alloc_size alignment
choose h alloc_size alignment (some (block_size, block_addr)) =
    carve h alloc_size alignment block_size block_addr

-- A request for no bytes is one for one byte.
abbrev pub at_least_one : ℕ → ℕ
at_least_one n = if n == 0 then 1 else n

unfoldable pub allocate : HeapAllocator → ℕ → ℕ → HeapAllocator × ℕ
unfolding choose carve extend
allocate h alloc_size alignment =
    let n = at_least_one alloc_size in
    choose h n alignment (find_fit n alignment (MultiMap.lower_bound n h.free_blocks_by_size))

pub release : HeapAllocator → ℕ → Option ℕ → HeapAllocator
release h address none = h
release h address (some freed_size) =
    add_free_block (record h { allocations = Dict.erase address h.allocations }) address freed_size

unfoldable pub free : HeapAllocator → ℕ → HeapAllocator
unfolding release
free h address = if address == 0 then h else release h address (Dict.lookup address h.allocations)

-- The move of a live block of `old_size` bytes to a larger one.
pub grow : HeapAllocator → ℕ → ℕ → Option ℕ → HeapAllocator × ℕ
grow h address new_size none = (h, 0)
grow h address new_size (some old_size) =
    if leb new_size old_size
    then (h, address)
    else let (h', new_addr) = allocate h new_size 16 in
      if new_addr == 0 then (h', 0) else (free h' address, new_addr)

unfoldable pub realloc : HeapAllocator → ℕ → ℕ → HeapAllocator × ℕ
unfolding grow
realloc h address new_size =
    if address == 0
    then allocate h new_size 16
    else if new_size == 0
    then (free h address, 0)
    else grow h address new_size (Dict.lookup address h.allocations)

total : List (ℕ × ℕ) → ℕ → ℕ
total [] sum = sum
total ((address, size) ∷ rest) sum = total rest (add64 sum size)

unfoldable pub get_used : HeapAllocator → ℕ
unfolding total
get_used h = total h.allocations 0

size_or_zero : Option ℕ → ℕ
size_or_zero none = 0
size_or_zero (some size) = size

unfoldable pub get_allocation_size : HeapAllocator → ℕ → ℕ
unfolding size_or_zero
get_allocation_size h address = size_or_zero (Dict.lookup address h.allocations)
