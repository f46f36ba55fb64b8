-- ===== src/Search/Tests.antt =====
-- The theorems of the search trees at a tree with one node.
use cross_shim.Base.{
  ℕ, List, [], ◌∷◌, ◌+◌, ◌-◌, ◌%◌, ◌^◌, ◌≡◌, ◌⊎◌, refl, ap, sym, true, subst, some, arith, inl, inr,
  ◌==◌, if◌then◌else◌,
}
use cross_shim.Base.Word.{add64, sub64, not64, align_up}
use cross_shim.Container.MultiMap
use cross_shim.Heap.{find_fit, allocate}
use cross_shim.Memory.{MemoryManager, read, write, read_host, write_host}
use cross_shim.Memory.Host.{Qemu, read_bytes, write_bytes}
use cross_shim.Memory.Bytes.{read_bytes-write_bytes, read_bytes-write_disjoint}
use cross_shim.Memory.ReadWrite.{Apart}
use cross_shim.Memory.Region.{find_region, holds_range}
use cross_shim.Memory.Words.{little_endian, from_bytes}
use cross_shim.Memory.Tests.{manager}
use cross_shim.Search.{
  found, placed, call_compar, load, save, new_node, attach, tfind, tsearch, tsearch_loop,
}
use cross_shim.Memory.Running.{Debug, Sound, Writable}
use cross_shim.Search.Shape.{Tree, leaf, fork, depth, insert, Away, Separate, Holds}
use cross_shim.Search.Insert.{given, Room}
use cross_shim.Search.Descend.{landed}
use cross_shim.Search.Linear.{element, same, lfind, lsearch}
use cross_shim.Search.Append.{Differ, First, lfind-First, lsearch-appends}
use cross_shim.Search.Trees.{Rooted, Fresh, tsearch-insert, tfind-tsearch}

-- QEMU with a processor, and the guest's memory as a store of bytes.
abbrev one_cpu : Qemu (ℕ → ℕ)
one_cpu = record {
  has_cpu = λ g. true;
  has_first_cpu = λ g. true;
  rw_read = λ g a n. some (read_bytes g a n);
  rw_write = λ g a bs. (write_bytes g a bs, true);
  target_mmap = λ g a size prot. g;
}

one_cpu-Debug : Debug one_cpu
one_cpu-Debug = record {
  read_back = λ g a bs done. ap some (read_bytes-write_bytes g a bs);
  read_other = λ g a b n bs done fa fb apart. ap some (
      read_bytes-write_disjoint g a b n bs
        (elim apart [ inl before ↦ inr before | inr after ↦ inl after ]));
  keeps_cpu = λ g a bs. refl;
  same_rights = λ g a b bs cs. refl;
}

-- The word at 8192 points to a node at 12288 with the key 5.
abbrev demo : MemoryManager (ℕ → ℕ)
demo = record {
  regions = manager.regions;
  heap = manager.heap;
  dynamic_allocations = [];
  next_dynamic_alloc = manager.next_dynamic_alloc;
  qemu_ready = true;
  guest_base = 0;
  host = λ p. 0;
  host_maps = manager.host_maps;
  guest = λ p. if p == 8193 then 48 else if p == 12288 then 5 else 0;
}

demo-Sound : Sound one_cpu demo
demo-Sound = refl

writable : (a : ℕ) → Writable one_cpu demo a
writable a w = refl

abbrev one : Tree
one = fork 12288 5 leaf leaf

abbrev difference : ℕ → ℕ → ℕ
difference a b = (a + 2 ^ 64 - b) % 2 ^ 64

root_word : load one_cpu demo 8192 ≡ some 12288
unfolding load read read_host find_region holds_range add64 read_bytes from_bytes
root_word = refl

node-Holds : Holds one_cpu demo 12288 one
unfolding load read read_host find_region holds_range add64 read_bytes from_bytes
node-Holds = (refl, omega arith, omega arith, refl, (0, refl, refl), (0, refl, refl))

given_block : given one_cpu demo ≡ 4128
unfolding allocate find_fit MultiMap.lower_bound align_up add64 sub64 not64
given_block = refl

free_block : Room one_cpu demo 4128
unfolding load read read_host find_region holds_range add64 read_bytes from_bytes
free_block = (omega arith, omega arith, writable 4128, writable 4136, writable 4144)

demo-Rooted : Rooted one_cpu demo 8192 12288 one
demo-Rooted = record {
  there = omega arith;
  fits = omega arith;
  root = root_word;
  holds = node-Holds;
  separate = (tt, tt, tt, tt, tt, tt);
  outside = (inl (omega arith), tt, tt);
  able = (writable 8192, (writable 12296, writable 12304, tt, tt));
}

away : Away 4128 one
away = (inl (omega arith), tt, tt)

demo-Fresh : Fresh one_cpu demo 8192 one
demo-Fresh = record {
  room = subst (Room one_cpu demo) (sym given_block) free_block;
  apart = subst (λ n. Away n one) (sym given_block) away;
  root_apart = subst (λ n. Apart 8192 8 n 24) (sym given_block) (inr (omega arith));
}

tsearch-insert_example :
    (m' : MemoryManager (ℕ → ℕ)) × (p' : ℕ) × (tsearch one_cpu difference (depth one) demo 7 8192
      ≡ placed m' (landed difference 7 (given one_cpu demo) one))
    × Sound one_cpu m'
    × (load one_cpu m' 8192 ≡ some p')
    × Holds one_cpu m' p' (insert difference 7 (given one_cpu demo) one)
    × Separate (insert difference 7 (given one_cpu demo) one)
tsearch-insert_example =
    tsearch-insert one_cpu one_cpu-Debug difference demo 7 8192 12288 one demo-Sound (omega arith)
      demo-Rooted demo-Fresh

-- Memory with a new node at 4128 for the key 7, to the right of the old one.
abbrev grown : MemoryManager (ℕ → ℕ)
grown = record demo {
  heap = (allocate demo.heap 24 8).0;
  guest =
      write_bytes
        (write_bytes
          (write_bytes (write_bytes demo.guest 4128 (little_endian 8 7)) 4136 (little_endian 8 0))
          4144 (little_endian 8 0))
        12304 (little_endian 8 4128);
}

searched : tsearch one_cpu difference 1 demo 7 8192 ≡ placed grown 4128
unfolding tsearch tsearch_loop call_compar load attach new_node save allocate find_fit
    MultiMap.lower_bound align_up add64 sub64 not64 read write read_host write_host find_region
    holds_range read_bytes from_bytes little_endian
searched = refl

tfind-tsearch_example :
    tfind one_cpu difference (depth (insert difference 7 (given one_cpu demo) one)) grown 7 8192
    ≡ found 4128
unfolding depth
tfind-tsearch_example =
    tfind-tsearch one_cpu one_cpu-Debug difference demo grown 7 8192 12288 4128 one demo-Sound
      (omega arith) refl demo-Rooted demo-Fresh searched

-- The word at 12288 is also the count of five elements of eight bytes from 4096 on, and the word at
-- 8192 a key that is equal to none.
abbrev unequal : MemoryManager (ℕ → ℕ) → ℕ → ℕ → ℕ
unequal m key elem = 1

abbrev key_bytes : List ℕ
key_bytes = 0 ∷ 48 ∷ 0 ∷ 0 ∷ 0 ∷ 0 ∷ 0 ∷ 0 ∷ []

none_equal : Differ (unequal demo) 8192 4096 8 0 5
unfolding same
none_equal j small = refl

count_word : load one_cpu demo 12288 ≡ some 5
unfolding load read read_host find_region holds_range add64 read_bytes from_bytes
count_word = refl

key_word : read one_cpu demo 8192 8 ≡ some key_bytes
unfolding read read_host find_region holds_range add64 read_bytes
key_word = refl

fifth : element 4096 8 5 ≡ 4136
unfolding element
fifth = refl

lsearch-appends_example :
    (m' : MemoryManager (ℕ → ℕ)) × (lsearch one_cpu unequal demo 8192 4096 12288 8
      ≡ placed m' (element 4096 8 5))
    × (read one_cpu m' (element 4096 8 5) 8 ≡ some key_bytes)
    × (load one_cpu m' 12288 ≡ some 6)
lsearch-appends_example =
    lsearch-appends one_cpu one_cpu-Debug unequal demo 8192 4096 12288 5 key_bytes demo-Sound
      count_word (writable 12288) (omega arith) (omega arith) none_equal key_word
      (rw fifth (omega arith)) (rw fifth (inl (omega arith))) refl

-- A comparison that finds the third element equal.
abbrev third : MemoryManager (ℕ → ℕ) → ℕ → ℕ → ℕ
third m key elem = if elem == 4112 then 0 else 1

lfind-First_example :
    ((lfind one_cpu third demo 8192 4096 12288 8 ≡ found 0) × Differ (third demo) 8192 4096 8 0 5)
    ⊎ ((a : ℕ) × (lfind one_cpu third demo 8192 4096 12288 8 ≡ found a)
        × First (third demo) 8192 4096 8 0 5 a)
lfind-First_example = lfind-First one_cpu third demo 8192 4096 12288 8 5 count_word
