-- ===== src/Search.antt =====
-- The binary trees of src/hle/hle_search.cpp: tfind and tsearch over nodes in the guest's memory. A
-- node has its key at 0, the left subtree at 8 and the right one at 16. The guest's comparison
-- function is an argument, which returns its X0.
pub mod Words
pub mod Shape
pub mod Find
pub mod Insert
pub mod Descend
pub mod Trees
pub mod Linear
pub mod Append
mod Tests
use Prim.Native.Nat.{Ordering, lt, eq, gt}
use cross_shim.Base.{
  ℕ, zero, suc, ◌+◌, ◌%◌, ◌^◌, Option, none, some, List, leb, ◌==◌, if◌then◌else◌,
}
use cross_shim.Base.Word.{add64}
use cross_shim.Heap
use cross_shim.Memory.{MemoryManager, read, write}
use cross_shim.Memory.Host.{Qemu}
use cross_shim.Memory.Words.{little_endian, from_bytes}

-- The result as an int, against 0.
unfoldable pub call_compar : (ℕ → ℕ → ℕ) → ℕ → ℕ → Ordering
call_compar compar key1 key2 =
    let cmp = compar key1 key2 % 2 ^ 32 in
    if cmp == 0 then eq else if leb (2 ^ 31) cmp then lt else gt

-- X0 of tfind; no value stands for a read that failed, and the loop ends where its fuel does.
pub data Lookup : Type 0 where
  found : ℕ → Lookup
  unreadable no_fuel : Lookup

pub data Insertion (G : Type 0) : Type 0 where
  placed : MemoryManager G → ℕ → Insertion G
  unreadable no_fuel : Insertion G

module _ {G : Type 0} (q : Qemu G) where
  -- mem_read and mem_write of a uint64_t; the result of a write is not looked at.
  unfoldable pub load : MemoryManager G → ℕ → Option ℕ
  load m a = elim (read q m a 8) [ none ↦ none | some bytes ↦ some (from_bytes bytes) ]

  unfoldable pub save : MemoryManager G → ℕ → ℕ → MemoryManager G
  save m a w = elim (write q m a (little_endian 8 w)) [ none ↦ m | some m' ↦ m' ]

  -- A new node without subtrees.
  unfoldable pub new_node : MemoryManager G → ℕ → MemoryManager G × ℕ
  unfolding save
  new_node m key =
      let (heap, n) = Heap.allocate m.heap 24 8 in
      let m1 = save (record m { heap = heap }) n key in
      (save (save m1 (add64 n 8) 0) (add64 n 16) 0, n)

  -- A new node whose address is stored at `place`.
  unfoldable pub attach : MemoryManager G → ℕ → ℕ → Insertion G
  unfolding new_node
  attach m key place = let (m', n) = new_node m key in placed (save m' place n) n

  module _ (compar : ℕ → ℕ → ℕ) where
    unfoldable pub tfind_loop : ℕ → MemoryManager G → ℕ → ℕ → Lookup
    tfind_loop zero m key root = if root == 0 then found 0 else no_fuel
    tfind_loop (suc fuel) m key root =
        let left : Lookup = elim (load m (add64 root 8)) [
          | none ↦ unreadable
          | some next ↦ tfind_loop fuel m key next
        ] in
        let right : Lookup = elim (load m (add64 root 16)) [
          | none ↦ unreadable
          | some next ↦ tfind_loop fuel m key next
        ] in
        if root == 0 then found 0 else elim (load m root) [
          | none ↦ unreadable
          | some node_key ↦ elim (call_compar compar key node_key) [
            | eq ↦ found root
            | lt ↦ left
            | gt ↦ right
          ]
        ]

    unfoldable pub tfind : ℕ → MemoryManager G → ℕ → ℕ → Lookup
    unfolding tfind_loop
    tfind fuel m key rootp =
        if rootp == 0
        then found 0
        else elim (load m rootp) [ none ↦ unreadable | some root ↦ tfind_loop fuel m key root ]

    unfoldable pub tsearch_loop : ℕ → MemoryManager G → ℕ → ℕ → Insertion G
    tsearch_loop zero m key node = if node == 0 then placed m 0 else no_fuel
    tsearch_loop (suc fuel) m key node =
        let left : Insertion G = elim (load m (add64 node 8)) [
          | none ↦ unreadable
          | some next ↦
              let rest = tsearch_loop fuel m key next in
              if next == 0 then attach m key (add64 node 8) else rest
        ] in
        let right : Insertion G = elim (load m (add64 node 16)) [
          | none ↦ unreadable
          | some next ↦
              let rest = tsearch_loop fuel m key next in
              if next == 0 then attach m key (add64 node 16) else rest
        ] in
        if node == 0 then placed m 0 else elim (load m node) [
          | none ↦ unreadable
          | some node_key ↦ elim (call_compar compar key node_key) [
            | eq ↦ placed m node
            | lt ↦ left
            | gt ↦ right
          ]
        ]

    unfoldable pub tsearch : ℕ → MemoryManager G → ℕ → ℕ → Insertion G
    unfolding tsearch_loop
    tsearch fuel m key rootp = if rootp == 0 then placed m 0 else elim (load m rootp) [
      | none ↦ unreadable
      | some root ↦ if root == 0 then attach m key rootp else tsearch_loop fuel m key root
    ]
