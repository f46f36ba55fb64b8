-- ===== src/Memory/Allocate.antt =====
-- MemoryManager::allocate_guest_memory and free_guest_memory.
use cross_shim.Base.{
  ℕ, ◌+◌, ◌≡◌, ◌≢◌, refl, ap, ◌∙◌, false, Option, none, some, ◌⊎◌, inl, inr, max, arith, ◌==◌,
}
use cross_shim.Base.Align.{max-IsPower, aligned_max}
use cross_shim.Base.Word.{add64, add64_lem, align_up, align_up_lem}
use cross_shim.Container.Dict
use cross_shim.Container.Dict.{lookup, lookup-insert, lookup-erase}
use cross_shim.Heap
use cross_shim.Heap.{HeapAllocator, at_least_one}
use cross_shim.Heap.Invariant.{Live}
use cross_shim.Heap.Release.{allocate_positive, free-Released}
use cross_shim.Memory.{MemoryManager, map, unmap, page_size}
use cross_shim.Memory.Host.{Qemu}
use cross_shim.Memory.Guest.{map_dynamic, allocate_guest_memory, free_guest_memory}
use cross_shim.Memory.Unmapping.{Unmapped, unmap-Unmapped}
use cross_shim.Memory.Owned.{Dynamic, Owned, GuestValid, GuestFits, Got, from_heap, from_pages}

module _ {G : Type 0} (q : Qemu G) where
  -- What `map` leaves alone.
  map-heap :
      (m : MemoryManager G) (a s p : ℕ) (fresh : Option ℕ) → (map q m a s p fresh).0.heap ≡ m.heap
  unfolding map
  map-heap m a s p none = refl
  map-heap m a s p (some x) = ground arith

  map-dynamic :
      (m : MemoryManager G) (a s p : ℕ) (fresh : Option ℕ)
      → (map q m a s p fresh).0.dynamic_allocations ≡ m.dynamic_allocations
  unfolding map
  map-dynamic m a s p none = refl
  map-dynamic m a s p (some x) = ground arith

  pub map_refused : (m : MemoryManager G) (n al : ℕ) → map_dynamic q m n al none ≡ (m, 0)
  unfolding map_dynamic map
  map_refused m n al = refl

  map_dynamic-Got :
      (m : MemoryManager G) (n al ptr : ℕ)
      → GuestValid m
      → GuestFits m n al
      → let out = map_dynamic q m n al (some ptr) in Got m n al out.1 out.0
  unfolding map_dynamic map
  map_dynamic-Got m n al ptr v f =
      let size = align_up_lem n page_size (12, omega arith, refl) (omega (arith, f.room)) in
      let top = max al page_size in
      let at =
        align_up_lem m.next_dynamic_alloc top (max-IsPower al f.fits.power)
          (omega (arith, f.room)) in
      let a = align_up m.next_dynamic_alloc top in
      let s = align_up n page_size in
      let end : add64 a s ≡ a + s = add64_lem a s (omega (arith, f.room)) in
      let mapped = (map q m a s 3 (some ptr)).0 in
      from_pages m n al v
        (record mapped {
          dynamic_allocations = Dict.insert a s mapped.dynamic_allocations;
          next_dynamic_alloc = add64 a s;
        })
        a s (map-heap m a s 3 (some ptr)) (ap (Dict.insert a s) (map-dynamic m a s 3 (some ptr)))
        end (omega (arith, size, f.fits.nonzero)) size.0 at.0 (aligned_max al a f.fits.power at.2)

  -- On a valid manager, for an alignment that is a power of two and if no sum of addresses, sizes
  -- and the alignment wraps, `allocate_guest_memory` returns a block of at least the size asked for (1 byte for 0),
  -- aligned, that touches no block owned before and is owned now, and
  -- the manager stays valid; it returns 0, and changes nothing, only if mmap refuses the pages.
  pub allocate_guest_memory-Got :
      (m : MemoryManager G) (size al : ℕ) (fresh : Option ℕ)
      → GuestValid m
      → GuestFits m (at_least_one size) al
      → let out = allocate_guest_memory q m size al fresh in
        Got m (at_least_one size) al out.1 out.0 ⊎ ((fresh ≡ none) × (out ≡ (m, 0)))
  unfolding allocate_guest_memory
  allocate_guest_memory-Got m size al fresh v f =
      let n = at_least_one size in
      elim (allocate_positive m.heap n al v.heap f.fits) [
        | inl g ↦
            let r = (Heap.allocate m.heap n al).1 in
            let got : (r == 0) ≡ false = ground (arith, g.above, v.heap.positive) in
            rw got (inl (from_heap m n al v (Heap.allocate m.heap n al).0 r f.fits.nonzero g))
        | inr (_, _, e) ↦ rw e (above fresh)
      ]
    where
      above :
          (o : Option ℕ)
          → let out = map_dynamic q m (at_least_one size) al o in
            Got m (at_least_one size) al out.1 out.0 ⊎ ((o ≡ none) × (out ≡ (m, 0)))
      above none = inr (refl, map_refused m (at_least_one size) al)
      above (some p) = inl (map_dynamic-Got m (at_least_one size) al p v f)

-- `g` owns what `m` owns, but for the block at `a`.
pub record Freed {G : Type 0} (m : MemoryManager G) (a : ℕ) (g : MemoryManager G) : Type 0 where
  pub valid : GuestValid g
  pub gone : (s : ℕ) → ¬ Owned g a s
  pub kept : (b t : ℕ) → b ≢ a → Owned m b t → Owned g b t
  pub only : (b t : ℕ) → Owned g b t → Owned m b t

module _ {G : Type 0} where
  unmap-heap : (m : MemoryManager G) (a s : ℕ) → (unmap m a s).0.heap ≡ m.heap
  unfolding unmap
  unmap-heap m a s = ground arith

  unmap-dynamic :
      (m : MemoryManager G) (a s : ℕ) → (unmap m a s).0.dynamic_allocations ≡ m.dynamic_allocations
  unfolding unmap
  unmap-dynamic m a s = ground arith

  unmap-next :
      (m : MemoryManager G) (a s : ℕ) → (unmap m a s).0.next_dynamic_alloc ≡ m.next_dynamic_alloc
  unfolding unmap
  unmap-next m a s = ground arith

  -- What stays when a dynamic allocation is dropped.
  drop_pages :
      (m g : MemoryManager G) (a s : ℕ)
      → GuestValid m
      → Dynamic m a s
      → g.heap ≡ m.heap
      → g.dynamic_allocations ≡ Dict.erase a m.dynamic_allocations
      → g.next_dynamic_alloc ≡ m.next_dynamic_alloc
      → Freed m a g
  drop_pages m g a s v e same era next =
      let at = λ (b : ℕ). ap (lookup b) era ∙ lookup-erase a b m.dynamic_allocations in
      record {
        valid = record {
          heap = rw same v.heap;
          below = rw same v.below;
          next = omega (arith, v.next);
          pages = λ b t x. ground (arith, at b, v.pages b t, next);
          apart = λ b t c w x y. ground (arith, at b, at c, v.apart b t c w);
        };
        gone = λ t o. elim o [
          | inl x ↦
              let x' : Live m.heap a t = rw same at x in
              omega (arith, v.heap.lives a t x', v.heap.high, v.below, v.pages a s e)
          | inr x ↦ ground (arith, at a)
        ];
        kept =
            λ b t ne o. elim o [ inl x ↦ inl (rw same x) | inr x ↦ inr (ground (arith, at b, ne)) ];
        only = λ b t o. elim o [ inl x ↦ inl (rw same at x) | inr x ↦ inr (ground (arith, at b)) ];
      }

  free_heap :
      (m : MemoryManager G) (a s : ℕ)
      → GuestValid m
      → Live m.heap a s
      → Freed m a (record m { heap = Heap.free m.heap a })
  free_heap m a s v e =
      let r = free-Released m.heap a s v.heap e in
      record {
        valid = record {
          heap = r.valid;
          below = omega (arith, r.same_base, r.same_size, v.below);
          next = v.next;
          pages = v.pages;
          apart = v.apart;
        };
        gone = λ t o. elim o [
          | inl x ↦ ground (arith, r.live a)
          | inr x ↦ omega (arith, v.pages a t x, v.heap.lives a s e, v.heap.high, v.below)
        ];
        kept = λ b t ne o. elim o [ inl x ↦ inl (ground (arith, r.live b, ne)) | inr x ↦ inr x ];
        only = λ b t o. elim o [ inl x ↦ inl (ground (arith, r.live b)) | inr x ↦ inr x ];
      }

  -- The regions after a block was freed: those of before if it was the heap's, and else without the
  -- first region with the address and size of the block.
  abbrev pub RegionsFreed : MemoryManager G → ℕ → ℕ → MemoryManager G → Type 0
  RegionsFreed m a s g =
      (Live m.heap a s × (g.regions ≡ m.regions) × (g.host_maps ≡ m.host_maps))
      ⊎ (Dynamic m a s × Unmapped m a s g)

  -- On a valid manager, freeing an owned block takes that block and no other from the tables of the
  -- heap and of the dynamic allocations, and keeps the manager valid. The regions stay for a block of
  -- the heap; for a dynamic allocation the first region with its address and size, if there is one,
  -- is gone with the host mapping that the manager made for it, and no other.
  pub free_guest_memory-Freed :
      (m : MemoryManager G) (a s : ℕ)
      → GuestValid m
      → Owned m a s
      → Freed m a (free_guest_memory m a) × RegionsFreed m a s (free_guest_memory m a)
  unfolding free_guest_memory
  free_guest_memory-Freed m a s v (inl e) =
      let live : (a == 0) ≡ false = ground (arith, v.heap.lives a s e, v.heap.positive) in
      rw live (heap_case (lookup a m.dynamic_allocations) refl)
    where
      heap_case :
          (o : Option ℕ)
          → lookup a m.dynamic_allocations ≡ o
          → let out : MemoryManager G = elim o [
            | none ↦ record m { heap = Heap.free m.heap a }
            | some t ↦
                (unmap
                  (record m { dynamic_allocations = Dict.erase a m.dynamic_allocations })
                  a
                  t).0
          ] in
            Freed m a out × RegionsFreed m a s out
      heap_case none x = (free_heap m a s v e, inl (e, refl, refl))
      heap_case (some t) x =
          absurd (omega (arith, v.pages a t x, v.heap.lives a s e, v.heap.high, v.below))
  free_guest_memory-Freed m a s v (inr e) =
      let live : (a == 0) ≡ false = ground (arith, v.pages a s e) in
      let m' = record m { dynamic_allocations = Dict.erase a m.dynamic_allocations } in
      rw (live, e, free_guest_memory)
        (
          drop_pages m (unmap m' a s).0 a s v e (unmap-heap m' a s) (unmap-dynamic m' a s)
              (unmap-next m' a s),
          inr (refl, unmap-Unmapped m' a s),
        )
