-- ===== src/Memory/Owned.antt =====
-- Guest allocations: a block of the heap, or whole pages above it.
use cross_shim.Base.{
  ℕ, ◌+◌, ◌*◌, ◌%◌, ◌≤◌, ◌<◌, ◌≡◌, ◌≢◌, ap, ◌∙◌, none, some, ◌⊎◌, inl, inr, Option-cases, arith,
}
use cross_shim.Base.Word.{u64_mod}
use cross_shim.Container.Dict
use cross_shim.Container.Dict.{lookup, lookup-insert, lookup-erase}
use cross_shim.Heap
use cross_shim.Heap.{HeapAllocator, at_least_one}
use cross_shim.Heap.Invariant.{IsValid, Live, Disjoint}
use cross_shim.Heap.Allocate.{Fits, Granted}
use cross_shim.Memory.{MemoryManager, page_size, dynamic_alloc_base}
use cross_shim.Memory.Guest.{get_guest_allocation_size}

abbrev pub Dynamic : {G : Type 0} → MemoryManager G → ℕ → ℕ → Type 0
Dynamic m a s = lookup a m.dynamic_allocations ≡ some s

-- The guest owns the block.
abbrev pub Owned : {G : Type 0} → MemoryManager G → ℕ → ℕ → Type 0
Owned m a s = Live m.heap a s ⊎ Dynamic m a s

pub record GuestValid {G : Type 0} (m : MemoryManager G) : Type 0 where
  pub heap : IsValid m.heap
  pub below : m.heap.base + m.heap.size ≤ dynamic_alloc_base
  pub next : dynamic_alloc_base ≤ m.next_dynamic_alloc
  pub pages :
      (a s : ℕ)
      → Dynamic m a s
      → (dynamic_alloc_base ≤ a) × (0 < s) × (a + s ≤ m.next_dynamic_alloc)
  pub apart : (a s b t : ℕ) → Dynamic m a s → Dynamic m b t → a < b → a + s ≤ b

-- Nothing wraps: neither in the heap nor above the last dynamic allocation.
pub record GuestFits {G : Type 0} (m : MemoryManager G) (n al : ℕ) : Type 0 where
  pub fits : Fits m.heap n al
  pub room : m.next_dynamic_alloc + al + n + 3 * page_size < u64_mod

-- A new block of at least `n` bytes, and what was owned before still is.
pub record Got {G : Type 0} (m : MemoryManager G) (n al r : ℕ) (g : MemoryManager G) : Type 0 where
  pub valid : GuestValid g
  pub aligned : r % al ≡ 0
  pub nonnull : r ≢ 0
  pub size : n ≤ get_guest_allocation_size g r
  pub owned : Owned g r (get_guest_allocation_size g r)
  pub disjoint : (b t : ℕ) → Owned m b t → Disjoint b t r (get_guest_allocation_size g r)
  pub kept : (b t : ℕ) → Owned m b t → Owned g b t

module _ {G : Type 0} (g : MemoryManager G) (r s : ℕ) where
  size_of-Live : 0 < s → Live g.heap r s → get_guest_allocation_size g r ≡ s
  unfolding get_guest_allocation_size Heap.get_allocation_size
  size_of-Live pos e = rw e (ground arith)

  size_of-Dynamic :
      lookup r g.heap.allocations ≡ none → Dynamic g r s → get_guest_allocation_size g r ≡ s
  unfolding get_guest_allocation_size Heap.get_allocation_size
  size_of-Dynamic none' e = rw (none', e)

  -- Nothing of the heap lies above it.
  not_in_heap : GuestValid g → dynamic_alloc_base ≤ r → lookup r g.heap.allocations ≡ none
  not_in_heap v high = elim (Option-cases (lookup r g.heap.allocations)) [
    | inl e ↦ e
    | inr (t, e) ↦ absurd (omega (arith, v.heap.lives r t e, v.heap.high, v.below))
  ]

module _ {G : Type 0} (m : MemoryManager G) (n al : ℕ) (v : GuestValid m) where
  pub from_heap :
      (h : HeapAllocator) (r : ℕ)
      → 0 < n
      → Granted m.heap n al r h
      → Got m n al r (record m { heap = h })
  from_heap h r pos g =
      let m' = record m { heap = h } in
      let live : Live h r n = ground (arith, g.live r) in
      let size = size_of-Live m' r n pos live in
      record {
        valid = record {
          heap = g.valid;
          below = omega (arith, g.same_base, g.same_size, v.below);
          next = v.next;
          pages = v.pages;
          apart = v.apart;
        };
        aligned = g.aligned;
        nonnull = λ z. omega (arith, g.above, v.heap.positive);
        size = omega (arith, size);
        owned = rw size (inl live);
        disjoint = λ b t o. rw size (elim o [
          | inl e ↦ g.disjoint b t e
          | inr e ↦ inr (omega (arith, v.pages b t e, g.below, v.below))
        ]);
        kept = λ b t o. elim o [
          | inl e ↦ inl (ground (arith, g.live b, g.disjoint b t e, pos, v.heap.lives b t e))
          | inr e ↦ inr e
        ];
      }

  -- The manager after `s` bytes at `r` were recorded above all others.
  pub from_pages :
      (g : MemoryManager G) (r s : ℕ)
      → g.heap ≡ m.heap
      → g.dynamic_allocations ≡ Dict.insert r s m.dynamic_allocations
      → g.next_dynamic_alloc ≡ r + s
      → 0 < s
      → n ≤ s
      → m.next_dynamic_alloc ≤ r
      → r % al ≡ 0
      → Got m n al r g
  from_pages g r s same ins next pos le above aligned =
      let at = λ (b : ℕ). ap (lookup b) ins ∙ lookup-insert r b s m.dynamic_allocations in
      let here : Dynamic g r s = ground (arith, at r) in
      let valid : GuestValid g = record {
        heap = rw same v.heap;
        below = rw same v.below;
        next = omega (arith, v.next);
        pages = λ b t e. ground (arith, at b, v.pages b t, v.next, next);
        apart =
            λ b t c w e f. ground (arith, at b, at c, v.apart b t c w, v.pages b t, v.pages c w);
      } in
      let size = size_of-Dynamic g r s (not_in_heap g r s valid (omega (arith, v.next))) here in
      record {
        valid = valid;
        aligned = aligned;
        nonnull = λ z. omega (arith, v.next);
        size = omega (arith, size);
        owned = rw size (inr here);
        disjoint = λ b t o. rw size (elim o [
          | inl e ↦ inl (omega (arith, v.heap.lives b t e, v.heap.high, v.below, v.next))
          | inr e ↦ inl (omega (arith, v.pages b t e))
        ]);
        kept = λ b t o. elim o [
          | inl e ↦ inl (rw same e)
          | inr e ↦ inr (ground (arith, at b, v.pages b t e))
        ];
      }
