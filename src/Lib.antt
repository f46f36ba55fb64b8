-- ===== src/Lib.antt =====
-- CrossShim runs Android ARM64 shared libraries on x86-64 Linux: QEMU executes the guest's
-- instructions, and the calls into the C library are carried out by host code. This library
-- models the host code that owns the guest's memory, its threads and their locks.
--
-- The parts, from the bottom up, with the files of the repository that they model:
--
-- Base has the shared helpers: Boolean tests, lists, 64-bit words with the wrap-around written
-- out (Base/Word, where `align_up` and `align_down` of src/memory_manager.cpp stand), masks
-- (Base/Bits). Container has std::map and std::multimap as association lists with their laws.
--
-- Heap is HeapAllocator of include/memory_manager.h and src/memory_manager.cpp: `allocate`,
-- `free`, `add_free_block` (merging with both neighbours), `realloc`. Its two indices are the
-- lists `free_blocks` and `free_blocks_by_size`. Heap/Invariant says what a valid heap is: live
-- and free blocks lie in the heap and touch nothing else, no two free blocks are neighbours, and
-- both indices name the same blocks.
--
-- Memory is MemoryManager of the same files: the table of regions over the host's memory, `read`,
-- `write`, `zero` (`zero_memory`), `map`, `unmap`, and in Memory/Guest the guest's allocations,
-- which take pages above the heap once the heap is full. The host's memory is a function from
-- addresses to bytes, what the host's mmap returns is an argument (`none` for MAP_FAILED), and
-- QEMU is the record `Qemu` of Memory/Host, a parameter. The theorems on memory take one of its two
-- modes: without a processor, as while the manager is set up, memory is the host's (`NoGuest` of
-- Memory/ReadWrite); with one, as when a handler runs, it is QEMU's, whose debug access keeps the
-- laws `Debug` of Memory/Running.
--
-- Hle models handlers of the C library: Hle/Vma the budget of guest mappings
-- (include/hle_mmap_state.h), Hle/Brk brk and sbrk (src/hle/hle_memory.cpp,
-- include/hle_brk_state.h), Hle/Alloc malloc, calloc, realloc, free, posix_memalign,
-- aligned_alloc, mmap and munmap (src/hle/hle_memory.cpp). A handler takes its argument registers
-- and returns the state, X0 and errno. They call Memory, which calls Heap.
--
-- Sync models ThreadManager (include/thread_manager.h and src/thread_manager.cpp): the table of
-- threads, blocking and waking (Sync, Sync/Wake), mutexes, read-write locks, condition variables,
-- barriers and thread-specific keys (Sync/Mutex, RwLock, Cond, Barrier, Keys) with their queues
-- of waiting threads and the functions at which a woken thread resumes, joining and ending
-- threads (Sync/Thread), the choice of the next thread (Sync/Scheduler) and `context_switch`
-- (Sync/Switch), reading, writing, accepting, receiving and sending (Sync/Io, Sync/Io/Socket),
-- where what the host's call returned is an argument, and the voluntary switches (Sync/Yield).
-- The current thread and the processor's X0, LR, PC and other registers are fields of the state,
-- and the word that a call reads from the guest is an argument. A call that blocks is described
-- up to `context_switch`; where its function goes on after that, this is a definition of its own
-- (`cond_timedwait_switched`), on the state that it finds then. What the scheduler asks of the
-- host, the time and poll, is an argument that may change between two looks. The entries of a
-- table are visited in the order of their keys, where the source's hash maps have none. Lock
-- counts are native numbers, without the overflow of int.
--
-- Relocation is RelocationHandler of include/relocation_handler.h and src/relocation_handler.cpp:
-- the types of relocations, the lookup of symbols by a resolver, which is an argument, the
-- counts, and the words that are written by way of Memory.
--
-- Tls is TlsManager of include/tls_manager.h and src/tls_manager.cpp: the slots and errno of the
-- main thread's block in the guest's memory, `initialize`, `set_slot`, `get_slot`, `set_errno` and
-- `get_errno`. The registers TPIDR_EL0 and X18 are fields of its state.
--
-- Utf8 models the UTF-8 routines of src/hle/hle_wchar.cpp: `encode_utf8`, `decode_utf8`,
-- `decode_utf8_string` (Utf8/Text), and wide characters on a stream of the host with the handlers
-- getwc, ungetwc and fputwc (Utf8/Stream), where the stream, what fgetc, ungetc and fwrite do, is
-- the record `HostFile`, a parameter. Its bit operations are read as sums in Utf8/Values.
--
-- Scan models two parts of scanf of src/hle/hle_scan.cpp: the integers, `parse_integer_value` with its
-- bases, marks and widths, and the parser of formats, `parse_scan_format` (Scan/Format), whose index
-- is the list of what is left of the format.
--
-- Search models tfind and tsearch of src/hle/hle_search.cpp over Memory and Heap: `load` and `save`
-- are Emulator::mem_read and mem_write of a word (src/emulator.cpp), the guest's comparison function
-- is an argument that neither writes memory nor depends on it, and a read that fails ends a run as
-- `unreadable`. Search/Shape says what tree stands in memory, Search/Descend what an insertion
-- changes. Their theorems and that on lsearch are about memory with a processor. Search/Linear models lfind and lsearch, which go through an array; there the comparison
-- function sees the memory, and a key that cannot be read is appended as zeros.
--
-- Bounds and fuel: addresses and sizes are native numbers and every sum of the source is taken
-- modulo 2^64; the theorems say where they need that a sum does not wrap. The loop of `zero` runs
-- on as many rounds as there are bytes and one more, which is enough since each round clears at
-- least one byte. The loop that copies on a reallocation (Memory/Copy) has the same fuel. The
-- loop of `decode_utf8_string` has a round for each byte, which is enough since a round takes a byte
-- at least. The loop of `parse_scan_format` has a round for each character of the format. The loops
-- of tfind and tsearch have a round for each level of the tree. The loop of `context_switch` after
-- the last thread that could run has ended has the ten rounds of the source.
--
-- Left out: the host's locks and memory fences (each call is one step), log lines, the names of
-- regions, and what a call of QEMU that failed may have written. Of ThreadManager the creation of
-- threads, the timed join, the periodic checks and epoll_wait, and the mode of a descriptor, and
-- of the program the loader, the system calls and the handlers that only forward to the host's C
-- library are not modelled.
mod Base
pub mod Container
pub mod Heap
pub mod Memory
pub mod Hle
pub mod Sync
pub mod Relocation
pub mod Tls
pub mod Utf8
pub mod Scan
pub mod Search
