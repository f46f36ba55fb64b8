-- ===== src/Heap/Reach.antt =====
-- Every heap that a sequence of calls can reach from the constructor.
use cross_shim.Base.{
  ℕ, ◌+◌, ◌<◌, refl, Option, none, some, Bool-cases, arith, leb, ◌==◌, inl, inr, Option-cases,
}
use cross_shim.Base.Word.{u64_mod}
use cross_shim.Container.Dict.{lookup}
use cross_shim.Container.MultiMap
use cross_shim.Heap.{HeapAllocator, init, allocate, at_least_one, free, grow, realloc}
use cross_shim.Heap.Invariant.{IsValid}
use cross_shim.Heap.Allocate.{Fits, allocate-Granted}
use cross_shim.Heap.Release.{free-Released, free_unknown}

-- A new heap is valid if its base is not 0 and its end fits a word.
pub init-IsValid : (base size : ℕ) → 0 < base → base + size < u64_mod → IsValid (init base size)
unfolding init lookup MultiMap.count
init-IsValid base size pos fits = record {
  positive = pos;
  limit = fits;
  low = omega arith;
  high = omega arith;
  frees = λ a s e. ground arith;
  lives = λ a s e. ground arith;
  gaps = λ a s b t e. ground arith;
  apart = λ a s b t e. ground arith;
  mixed = λ a s b t e. ground arith;
  index = λ a s. refl;
  sorted = tt;
}

allocate-IsValid :
    (h : HeapAllocator) (n al : ℕ)
    → IsValid h
    → Fits h (at_least_one n) al
    → IsValid (allocate h n al).0
allocate-IsValid h n al v f = elim (allocate-Granted h n al v f) [
  | inl g ↦ g.valid
  | inr (_, _, e) ↦ rw e v
]

free-IsValid : (h : HeapAllocator) (a : ℕ) → IsValid h → IsValid (free h a)
free-IsValid h a v = elim (Option-cases (lookup a h.allocations)) [
  | inl e ↦ rw (free_unknown h a e) v
  | inr (s, e) ↦ (free-Released h a s v e).valid
]

grow-IsValid :
    (h : HeapAllocator) (a n : ℕ) (o : Option ℕ)
    → IsValid h
    → Fits h (at_least_one n) 16
    → IsValid (grow h a n o).0
unfolding grow
grow-IsValid h a n none v f = v
grow-IsValid h a n (some s) v f = elim (Bool-cases (leb n s)) [
  | inl fits ↦ rw fits v
  | inr larger ↦
      let w = allocate-IsValid h n 16 v f in
      rw larger (elim (Bool-cases ((allocate h n 16).1 == 0)) [
        | inl full ↦ rw full w
        | inr got ↦ rw got (free-IsValid (allocate h n 16).0 a w)
      ])
]

realloc-IsValid :
    (h : HeapAllocator) (a n : ℕ)
    → IsValid h
    → Fits h (at_least_one n) 16
    → IsValid (realloc h a n).0
unfolding realloc
realloc-IsValid h a n v f = elim (Bool-cases (a == 0)) [
  | inl null ↦ rw null (allocate-IsValid h n 16 v f)
  | inr live ↦ rw live (elim (Bool-cases (n == 0)) [
    | inl nothing ↦ rw nothing (free-IsValid h a v)
    | inr size ↦ rw size (grow-IsValid h a n (lookup a h.allocations) v f)
  ])
]

-- One call of the allocator, with an alignment that is a power of two and sums that do not wrap.
pub data Step : HeapAllocator → HeapAllocator → Type 0 where
  allocates :
      (h : HeapAllocator) (n al : ℕ) → Fits h (at_least_one n) al → Step h (allocate h n al).0
  frees : (h : HeapAllocator) (a : ℕ) → Step h (free h a)
  reallocs : (h : HeapAllocator) (a n : ℕ) → Fits h (at_least_one n) 16 → Step h (realloc h a n).0

pub data Reach (h : HeapAllocator) : HeapAllocator → Type 0 where
  here : Reach h h
  next : {g k : HeapAllocator} → Reach h g → Step g k → Reach h k

Step-IsValid : {h g : HeapAllocator} → Step h g → IsValid h → IsValid g
Step-IsValid (allocates h n al f) v = allocate-IsValid h n al v f
Step-IsValid (frees h a) v = free-IsValid h a v
Step-IsValid (reallocs h a n f) v = realloc-IsValid h a n v f

-- From a valid heap, every sequence of `allocate`, `free` and `realloc` calls, with any
-- addresses, with sizes (0 counts as 1) and alignments, each a power of two, whose sums with the end
-- of the heap do not wrap, leads to a valid heap: blocks do not overlap,
-- neighbouring free blocks are merged, and the two indices of the free blocks agree.
pub Reach-IsValid : {h g : HeapAllocator} → Reach h g → IsValid h → IsValid g
Reach-IsValid here v = v
Reach-IsValid (next r s) v = Step-IsValid s (Reach-IsValid r v)
