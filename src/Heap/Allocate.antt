-- ===== src/Heap/Allocate.antt =====
-- HeapAllocator::allocate: what it returns and the heap it leaves.
use cross_shim.Base.{
  ℕ, ◌+◌, ◌-◌, ◌%◌, ◌≤◌, ◌<◌, ◌≡◌, refl, ap, ◌∙◌, ◌⊎◌, inl, inr, Option, none, some, Bool-cases,
  arith, ltb, leb, ltb→lt, leb→le, ◌==◌, if◌then◌else◌,
}
use cross_shim.Base.Word.{
  u64_mod, add64, sub64, add64_lem, sub64_lem, align_up, align_up_lem, IsPower,
}
use cross_shim.Container.Dict.{lookup, lookup-insert}
use cross_shim.Container.MultiMap
use cross_shim.Container.MultiMap.{Pairs, SortedFrom}
use cross_shim.Heap.{
  HeapAllocator, remove_free_block, find_fit, give_back, track, carve, extend, choose, at_least_one,
  allocate,
}
use cross_shim.Heap.Invariant.{
  IsValid, Unowned, Free, Live, Disjoint, held, remove-IsValid, remove-Unowned, track-IsValid,
}
use cross_shim.Heap.Fit.{
  find_fit-some, key_ge, find_fit-none, flip-Disjoint, held-pos, held_self, sub-Unowned,
  Frame-Unowned, give_back-Kept,
}

-- A new block of `n` bytes at `r`, disjoint from all others.
pub record Granted (h : HeapAllocator) (n al r : ℕ) (g : HeapAllocator) : Type 0 where
  pub valid : IsValid g
  pub aligned : r % al ≡ 0
  pub above : h.base ≤ r
  pub below : r + n ≤ h.base + h.size
  pub live : (b : ℕ) → lookup b g.allocations ≡ (if r == b then some n else lookup b h.allocations)
  pub disjoint : (b t : ℕ) → Live h b t → Disjoint b t r n
  pub same_base : g.base ≡ h.base
  pub same_size : g.size ≡ h.size

track-Granted :
    (h g : HeapAllocator) (n al r : ℕ)
    → IsValid g
    → Unowned g r n
    → g.allocations ≡ h.allocations
    → g.base ≡ h.base
    → g.size ≡ h.size
    → r % al ≡ 0
    → Granted h n al r (track g r n)
unfolding track
track-Granted h g n al r v u same base size aligned = record {
  valid = unfold track in track-IsValid v r n u;
  aligned = aligned;
  above = omega (arith, u.within);
  below = omega (arith, u.within, v.high);
  live = λ b. ground (arith, lookup-insert r b n g.allocations, ap (lookup b) same);
  disjoint = λ b t e. flip-Disjoint r n b t (u.not_live b t (ap (lookup b) same ∙ e));
  same_base = base;
  same_size = size;
}

-- The rest of the heap, from the high water mark, has room for the request.
abbrev pub HasRoom : HeapAllocator → ℕ → ℕ → Type 0
HasRoom h n al = align_up h.high_water_mark al + n ≤ h.base + h.size

-- No free block has room for the request behind its padding.
abbrev pub NoneFits : HeapAllocator → ℕ → ℕ → Type 0
NoneFits h n al = (a s : ℕ) → Free h a s → s < n + (align_up a al - a)

-- The request that `allocate` serves: the alignment is a power of two, and the sums of addresses
-- and sizes that the code forms do not wrap.
pub record Fits (h : HeapAllocator) (n al : ℕ) : Type 0 where
  pub power : IsPower al
  pub nonzero : 0 < n
  pub room : h.base + h.size + al + n ≤ u64_mod

module _ (h : HeapAllocator) (n al : ℕ) (v : IsValid h) where
  in_index :
      (s a : ℕ)
      → n ≤ s
      → MultiMap.count s a (MultiMap.lower_bound n h.free_blocks_by_size)
        ≡ held s (lookup a h.free_blocks)
  in_index s a le = MultiMap.count-lower_bound n s a h.free_blocks_by_size v.sorted le ∙ v.index a s

  -- What a search of the size index says of the free list.
  pub fit_in-Free :
      (s a : ℕ)
      → find_fit n al (MultiMap.lower_bound n h.free_blocks_by_size) ≡ some (s, a)
      → Free h a s × (n ≤ s)
  fit_in-Free s a e =
      let hit = (find_fit-some n al s a _ e).0 in
      let le =
        key_ge n s a _ (MultiMap.lower_bound-SortedFrom 0 n h.free_blocks_by_size v.sorted) hit in
      (held-pos s (lookup a h.free_blocks) (omega (arith, in_index s a le)), le)

module _ (h : HeapAllocator) (n al : ℕ) (v : IsValid h) (f : Fits h n al) where
  up :
      (a : ℕ)
      → a ≤ h.base + h.size
      → (a ≤ align_up a al) × (align_up a al < a + al) × (align_up a al % al ≡ 0)
  up a le = align_up_lem a al f.power (omega (arith, f.room))

  padding : (a : ℕ) → a ≤ h.base + h.size → sub64 (align_up a al) a ≡ align_up a al - a
  padding a le = sub64_lem _ a (up a le).0 (omega (arith, up a le, f.room, f.nonzero))

  add_padding :
      (a : ℕ) → a ≤ h.base + h.size → add64 n (sub64 (align_up a al) a) ≡ n + (align_up a al - a)
  add_padding a le = rw (padding a le) (add64_lem n _ (omega (arith, up a le, f.room, v.positive)))

  -- A free block cut in three: padding, the new block, and what remains.
  cut-Granted :
      (s a r : ℕ)
      → Free h a s
      → a ≤ r
      → r + n ≤ a + s
      → r % al ≡ 0
      → Granted h n al r (
          track
            (give_back
              (give_back (remove_free_block h a s) 1 a (r - a))
              16
              (r + n)
              (s - n - (r - a)))
            r
            n)
  unfolding remove_free_block
  cut-Granted s a r e le room aligned =
      let v1 = remove-IsValid v a s e in
      let u1 = remove-Unowned v a s e in
      let k2 =
        give_back-Kept 1 a (r - a) v1 (omega arith)
          (λ q. sub-Unowned a s a (r - a) u1 q (omega arith) (omega arith)) in
      let u2 = λ (c w : ℕ) (q : 0 < w) (x : r ≤ c) (y : c + w ≤ a + s).
        Frame-Unowned a (r - a) c w k2.1 (inl (omega arith))
          (sub-Unowned a s c w u1 q (omega arith) y) in
      let k3 =
        give_back-Kept 16 (r + n) (s - n - (r - a)) k2.0 (omega arith)
          (λ q. u2 (r + n) (s - n - (r - a)) q (omega arith) (omega arith)) in
      let u3 =
        Frame-Unowned (r + n) (s - n - (r - a)) r n k3.1 (inr (omega arith))
          (u2 r n f.nonzero (omega arith) room) in
      track-Granted h _ n al r k3.0 u3 (k3.1.same_live ∙ k2.1.same_live)
        (k3.1.same_base ∙ k2.1.same_base) (k3.1.same_size ∙ k2.1.same_size) aligned

  carve-Granted :
      (s a : ℕ)
      → Free h a s
      → add64 n (sub64 (align_up a al) a) ≤ s
      → let out = carve h n al s a in Granted h n al out.1 out.0
  unfolding carve
  carve-Granted s a e room =
      let block = v.frees a s e in
      let le : a ≤ h.base + h.size = omega (arith, block, v.high) in
      let r = up a le in
      let fits : n + (align_up a al - a) ≤ s = omega (arith, add_padding a le) in
      let end : add64 (align_up a al) n ≡ align_up a al + n =
        add64_lem _ n (omega (arith, r, block, v.high, v.limit)) in
      let less : sub64 s n ≡ s - n =
        sub64_lem s n (omega arith) (omega (arith, block, v.high, v.limit)) in
      let rest : sub64 (s - n) (align_up a al - a) ≡ s - n - (align_up a al - a) =
        sub64_lem _ _ (omega arith) (omega (arith, block, v.high, v.limit)) in
      rw (padding a le, end, less, rest)
        (cut-Granted s a (align_up a al) e r.0 (omega (arith, r)) r.2)

  abbrev raised : ℕ → HeapAllocator
  raised m = record h { high_water_mark = m }

  raised-IsValid : (m : ℕ) → h.high_water_mark ≤ m → m ≤ h.base + h.size → IsValid (raised m)
  raised-IsValid m le top = record {
    positive = v.positive;
    limit = v.limit;
    low = omega (arith, v.low);
    high = top;
    frees = λ a s e. ground (arith, v.frees a s e);
    lives = λ a s e. ground (arith, v.lives a s e);
    gaps = v.gaps;
    apart = v.apart;
    mixed = v.mixed;
    index = v.index;
    sorted = v.sorted;
  }

  raised-Unowned : (r : ℕ) → h.high_water_mark ≤ r → Unowned (raised (r + n)) r n
  raised-Unowned r le = record {
    within = (f.nonzero, omega (arith, v.low), omega arith);
    not_free = λ b t e. inr (omega (arith, v.frees b t e));
    not_live = λ b t e. inr (omega (arith, v.lives b t e));
  }

  extend-cases :
      let out = extend h n al in
      (HasRoom h n al × Granted h n al out.1 out.0) ⊎ ((¬ HasRoom h n al) × (out ≡ (h, 0)))
  unfolding extend
  extend-cases =
      let r = up h.high_water_mark v.high in
      let end : add64 (align_up h.high_water_mark al) n ≡ align_up h.high_water_mark al + n =
        add64_lem _ n (omega (arith, r, v.high, f.room)) in
      let top : add64 h.base h.size ≡ h.base + h.size = add64_lem _ _ v.limit in
      rw (end, top)
        (elim (Bool-cases (ltb (h.base + h.size) (align_up h.high_water_mark al + n))) [
          | inl full ↦ rw full (inr (omega (arith, ltb→lt _ _ full), refl))
          | inr room ↦
              let fits : align_up h.high_water_mark al + n ≤ h.base + h.size = ground arith in
              rw room (
                inl (
                  fits,
                  track-Granted h (raised (align_up h.high_water_mark al + n)) n al _
                      (raised-IsValid _ (omega (arith, r)) fits) (raised-Unowned _ r.0) refl refl
                      refl r.2,
                ))
        ])

  none_fits : find_fit n al (MultiMap.lower_bound n h.free_blocks_by_size) ≡ none → NoneFits h n al
  none_fits e a s x = elim (Bool-cases (leb n s)) [
    | inl big ↦
        let le = leb→le n s big in
        let here : held s (lookup a h.free_blocks) ≡ 1 = held_self s (lookup a h.free_blocks) x in
        let block = v.frees a s x in
        omega (
          arith,
          find_fit-none n al s a _ e (omega (arith, in_index h n al v s a le)),
          add_padding a (omega (arith, block, v.high)),
        )
    | inr small ↦ ground arith
  ]

  choose-cases :
      (q : Option (ℕ × ℕ))
      → find_fit n al (MultiMap.lower_bound n h.free_blocks_by_size) ≡ q
      → let out = choose h n al q in
        Granted h n al out.1 out.0 ⊎ (NoneFits h n al × (¬ HasRoom h n al) × (out ≡ (h, 0)))
  unfolding choose
  choose-cases none e = elim extend-cases [
    | inl (room, g) ↦ inl g
    | inr (full, out) ↦ inr (none_fits e, full, out)
  ]
  choose-cases (some (s, a)) e =
      inl (carve-Granted s a (fit_in-Free h n al v s a e).0 (find_fit-some n al s a _ e).1)

module _ (h : HeapAllocator) (size al : ℕ) (v : IsValid h) (f : Fits h (at_least_one size) al) where
  -- On a valid heap, a request whose alignment is a power of two and whose sums do not wrap gets a
  -- new block of the size asked for (1 byte for 0): aligned, inside the heap, disjoint from every
  -- live block, recorded, no other record changed, and the heap is valid again. It is refused, with
  -- result 0 and no change, only if no free block has room and neither has the rest of the heap.
  pub allocate-Granted :
      let out = allocate h size al in
      let n = at_least_one size in
      Granted h n al out.1 out.0 ⊎ (NoneFits h n al × (¬ HasRoom h n al) × (out ≡ (h, 0)))
  unfolding allocate
  allocate-Granted = choose-cases h (at_least_one size) al v f _ refl
