-- ===== src/Hle/Tests.antt =====
-- The theorems of the memory handlers at concrete states.
use cross_shim.Base.{ℕ, ◌+◌, ◌^◌, ◌<◌, ◌≡◌, ◌≢◌, refl, Option, none, some, [], ◌∷◌, arith}
use cross_shim.Base.Word.{add64, sub64, not64, mul64, align_up}
use cross_shim.Container.Dict.{lookup}
use cross_shim.Container.MultiMap
use cross_shim.Container.Total.{total}
use cross_shim.Heap.{at_least_one, allocate, find_fit}
use cross_shim.Heap.Allocate.{Fits}
use cross_shim.Heap.Tests.{small}
use cross_shim.Memory.Guest.{allocate_guest_memory}
use cross_shim.Memory.Region.{find_region, holds_range}
use cross_shim.Memory.Tests.{no_cpu, heap_region, manager}
use cross_shim.Hle.Vma.{VmaState, try_reserve_vmas}
use cross_shim.Hle.Vma.Budget.{VmaValid, reserves, releases, run, run-VmaValid}
use cross_shim.Hle.Brk.{BrkState, minus_one}
use cross_shim.Hle.Brk.Range.{InRange}
use cross_shim.Hle.Alloc.{Process, mmap, mmap_reserved, munmap}
use cross_shim.Hle.Alloc.Mmap.{munmap-mmap}

abbrev budget : VmaState
budget = record { count = 3; reservations = (4096, 1) ∷ (20480, 2) ∷ [] }

budget-VmaValid : VmaValid budget
unfolding total
budget-VmaValid = record {
  sorted = (omega arith, (omega arith, tt));
  counted = refl;
  bounded = omega arith;
}

run-VmaValid_example :
    VmaValid (run budget (reserves 12288 5000 ∷ reserves 4096 7 ∷ releases 20480 ∷ []))
run-VmaValid_example =
    run-VmaValid budget (reserves 12288 5000 ∷ reserves 4096 7 ∷ releases 20480 ∷ [])
      (omega arith, (omega arith, tt)) budget-VmaValid

no_reservation : lookup 12288 budget.reservations ≡ none
unfolding lookup
no_reservation = refl

abbrev fresh_break : BrkState
fresh_break = record { initial_brk = 0; current_brk = 0 }

in_range : InRange 4096 fresh_break
in_range = (omega arith, omega arith, omega arith)

abbrev process : Process (Unit {0})
process = record { memory = manager; vmas = budget; next_key = 2 ^ 63 }

key_free : lookup (2 ^ 63) budget.reservations ≡ none
unfolding lookup
key_free = refl

abbrev no_page : Option ℕ
no_page = none

mapped_at : (allocate_guest_memory no_cpu manager 100 4096 none).1 ≡ 8192
unfolding allocate_guest_memory allocate find_fit MultiMap.lower_bound align_up add64 sub64 not64
mapped_at = refl

at_free : lookup (allocate_guest_memory no_cpu manager 100 4096 none).1 budget.reservations ≡ none
unfolding lookup
at_free = rw mapped_at refl

mapped : (mmap no_cpu process 100 none).x0 ≢ minus_one
unfolding mmap mmap_reserved try_reserve_vmas add64
mapped = rw mapped_at (ground arith)

munmap-mmap_example :
    let out = mmap no_cpu process 100 none in (munmap out.process out.x0).process.vmas.count ≡ 3
munmap-mmap_example =
    munmap-mmap no_cpu process 100 none (ground arith) (omega arith) key_free at_free mapped

block-Fits : (n : ℕ) → 0 < n → n < 65536 → Fits small n 16
block-Fits n pos le = record { power = (4, omega arith, refl); nonzero = pos; room = omega arith }

heap_mapped : find_region (holds_range 4096 65536) manager.regions ≡ some heap_region
unfolding find_region holds_range add64
heap_mapped = refl

wrapped-Fits : Fits small (at_least_one (mul64 (2 ^ 61 + 1) 8)) 16
unfolding mul64
wrapped-Fits = block-Fits 8 (omega arith) (omega arith)
