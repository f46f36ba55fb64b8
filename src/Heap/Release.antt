-- ===== src/Heap/Release.antt =====
-- HeapAllocator::free and HeapAllocator::realloc.
use cross_shim.Base.{
  ℕ, ◌+◌, ◌*◌, ◌/◌, ◌%◌, ◌≤◌, ◌<◌, ◌≡◌, ◌≢◌, ap, ◌∙◌, ◌⊎◌, inl, inr, false, none, some, arith, leb,
  ◌==◌, if◌then◌else◌,
}
use native.Mathlib.Decide.{dec_le}
use native.Mathlib.Nat.{div-add-mod'}
use cross_shim.Base.Word.{align_up, align_up_lem}
use cross_shim.Container.Dict
use cross_shim.Container.Dict.{lookup, lookup-erase}
use cross_shim.Heap.{HeapAllocator, release, free, allocate, at_least_one, grow, realloc}
use cross_shim.Heap.Invariant.{IsValid, Unowned, Live, Disjoint}
use cross_shim.Heap.Join.{Covered}
use cross_shim.Heap.Merge.{add_free_block-IsValid}
use cross_shim.Heap.Allocate.{Granted, Fits, NoneFits, HasRoom, allocate-Granted}

abbrev forget : HeapAllocator → ℕ → HeapAllocator
forget h a = record h { allocations = Dict.erase a h.allocations }

module _ {h : HeapAllocator} (v : IsValid h) (a s : ℕ) (e : Live h a s) where
  forget-IsValid : IsValid (forget h a)
  forget-IsValid = record {
    positive = v.positive;
    limit = v.limit;
    low = v.low;
    high = v.high;
    frees = v.frees;
    lives = λ b t x. v.lives b t (ground (arith, lookup-erase a b h.allocations));
    gaps = v.gaps;
    apart = λ b t c w x y.
        v.apart b t c w (ground (arith, lookup-erase a b h.allocations))
          (ground (arith, lookup-erase a c h.allocations));
    mixed = λ b t c w x. v.mixed b t c w (ground (arith, lookup-erase a b h.allocations));
    index = v.index;
    sorted = v.sorted;
  }

  forget-Unowned : Unowned (forget h a) a s
  forget-Unowned = record {
    within = v.lives a s e;
    not_free = λ b t x. v.mixed a s b t e x;
    not_live = λ b t x.
        ground
          (arith, lookup-erase a b h.allocations, v.apart a s b t e, v.apart b t a s, v.lives b t);
  }

-- `g` is `h` without the live block at `a`, its bytes in one free block.
pub record Released (h : HeapAllocator) (a s : ℕ) (g : HeapAllocator) : Type 0 where
  pub valid : IsValid g
  pub live : (b : ℕ) → lookup b g.allocations ≡ (if a == b then none else lookup b h.allocations)
  pub covered : Covered g a s
  pub same_base : g.base ≡ h.base
  pub same_size : g.size ≡ h.size
  pub same_mark : g.high_water_mark ≡ h.high_water_mark

-- Freeing a live block of a valid heap keeps it valid, forgets that block and no other, and puts all
-- its bytes into one free block; the bounds of the heap and its high water mark do not change.
pub free-Released :
    (h : HeapAllocator) (a s : ℕ) → IsValid h → Live h a s → Released h a s (free h a)
unfolding free
free-Released h a s v e =
    let k = add_free_block-IsValid (forget-IsValid v a s e) a s (forget-Unowned v a s e) in
    let nonzero : (a == 0) ≡ false = ground (arith, v.lives a s e, v.positive) in
    rw (nonzero, e, release)
      (record {
        valid = k.0;
        live = λ b. ap (lookup b) k.1.same_live ∙ lookup-erase a b h.allocations;
        covered = k.2;
        same_base = k.1.same_base;
        same_size = k.1.same_size;
        same_mark = k.1.same_mark;
      })

-- Freeing an address that is not live changes nothing, so a second `free` is harmless.
pub free_unknown : (h : HeapAllocator) (a : ℕ) → lookup a h.allocations ≡ none → free h a ≡ h
unfolding free
free_unknown h a e = rw (e, release) (ground arith)

-- On a valid heap, freeing a live block twice does what freeing it once does.
pub free-free :
    (h : HeapAllocator) (a s : ℕ) → IsValid h → Live h a s → free (free h a) a ≡ free h a
free-free h a s v e = free_unknown (free h a) a (ground (arith, (free-Released h a s v e).live a))

mul_le : (p i j : ℕ) → i ≤ j → i * p ≤ j * p
mul_le p i j h = grind arith

factor_le : (p i j : ℕ) → i * p < j * p + p → i * p ≤ j * p
factor_le p i j h = elim (dec_le i j) [
  | yes le ↦ grind arith
  | no gt ↦
      let more : (j + 1) * p ≤ i * p = mul_le p (j + 1) i (omega arith) in absurd (omega arith)
]

multiple_le : (p x y : ℕ) → x % p ≡ 0 → y % p ≡ 0 → x < y + p → x ≤ y
multiple_le p x y ex ey lt =
    let whole_x = div-add-mod' x p in
    let whole_y = div-add-mod' y p in
    let le = factor_le p (x / p) (y / p) (omega arith) in omega arith

-- A positive size is taken as it is.
pub positive-Fits : (h : HeapAllocator) (n al : ℕ) → Fits h n al → at_least_one n ≡ n
positive-Fits h n al f = ground (arith, f.nonzero)

-- `allocate` with a positive size.
pub allocate_positive :
    (h : HeapAllocator) (n al : ℕ)
    → IsValid h
    → Fits h n al
    → let out = allocate h n al in
      Granted h n al out.1 out.0 ⊎ (NoneFits h n al × (¬ HasRoom h n al) × (out ≡ (h, 0)))
allocate_positive h n al v f =
    let e = positive-Fits h n al f in rw e at (allocate-Granted h n al v (rw e f))

-- A freed block can be had again: on a valid heap a request of its size, or less, at an alignment
-- that its address has, is not refused after `free`, provided the request's sums do not wrap.
pub allocate-free :
    (h : HeapAllocator) (a s n al : ℕ)
    → IsValid h
    → Live h a s
    → n ≤ s
    → a % al ≡ 0
    → Fits (free h a) n al
    → (allocate (free h a) n al).1 ≢ 0
allocate-free h a s n al v e le aligned f zero =
    let r = free-Released h a s v e in
    elim (allocate_positive (free h a) n al r.valid f) [
      | inl g ↦ omega (arith, g.above, r.valid.positive)
      | inr (none', full, out) ↦
          let (b, t, x, lo, hi) = r.covered in
          let block = r.valid.frees b t x in
          let up = align_up_lem b al f.power (omega (arith, block, r.valid.high, f.room)) in
          omega (
            arith,
            none' b t x,
            up,
            multiple_le al (align_up b al) a up.2 aligned (omega (arith, up)),
          )
    ]

-- The heap after a live block moved to a larger one: the old record is gone, the others stay.
pub record Moved (h : HeapAllocator) (a n r : ℕ) (g : HeapAllocator) : Type 0 where
  pub valid : IsValid g
  pub aligned : r % 16 ≡ 0
  pub inside : (h.base ≤ r) × (r + n ≤ h.base + h.size)
  pub disjoint : (b t : ℕ) → Live h b t → Disjoint b t r n
  pub live :
      (b : ℕ)
      → lookup b g.allocations
        ≡ (if a == b then none else (if r == b then some n else lookup b h.allocations))

-- On a valid heap, with sums that do not wrap, `realloc` with a larger size moves a live block to one
-- aligned to 16, inside the heap and disjoint from every block live before, frees the old one, and
-- leaves the rest; it returns 0, and changes nothing, only if no free block fits and no room is left.
pub realloc_grow :
    (h : HeapAllocator) (a s n : ℕ)
    → IsValid h
    → Live h a s
    → s < n
    → Fits h n 16
    → let out = realloc h a n in
      Moved h a n out.1 out.0 ⊎ (NoneFits h n 16 × (¬ HasRoom h n 16) × (out ≡ (h, 0)))
unfolding realloc
realloc_grow h a s n v e lt f =
    let block = v.lives a s e in
    let live : (a == 0) ≡ false = ground (arith, block, v.positive) in
    let size : (n == 0) ≡ false = ground (arith, lt) in
    let larger : leb n s ≡ false = ground (arith, lt) in
    rw (live, size, e, grow, larger)
      (elim (allocate_positive h n 16 v f) [
        | inl g ↦
            let out = allocate h n 16 in
            let got : (out.1 == 0) ≡ false = ground (arith, g.above, v.positive) in
            let still : Live out.0 a s =
              ground (arith, g.live a, g.disjoint a s e, block, f.nonzero) in
            let r = free-Released out.0 a s g.valid still in
            rw got (
              inl (record {
                valid = r.valid;
                aligned = g.aligned;
                inside = (g.above, g.below);
                disjoint = g.disjoint;
                live = λ b. ground (arith, r.live b, g.live b);
              }))
        | inr (none', full, out) ↦
            rw (ap (λ (x : HeapAllocator × ℕ). x.1) out)
              (inr (none', full, ap {B = HeapAllocator × ℕ} (λ x. (x.0, 0)) out))
      ])
