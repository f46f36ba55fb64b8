-- ===== src/Memory/ReadWrite.antt =====
-- MemoryManager::read and write while no processor of QEMU is there.
use cross_shim.Base.{
  ℕ, ◌+◌, ◌-◌, ◌≤◌, ◌<◌, ◌≡◌, refl, ap, ◌⊎◌, inl, inr, true, false, ◌&&◌, Option, none, some, List,
  [], ◌∷◌, Option-cases, sym, ◌∙◌, arith, length,
}
use cross_shim.Base.Word.{u64_mod, add64_lem}
use cross_shim.Memory.{MemoryManager, read, write, read_host, write_host}
use cross_shim.Memory.Host.{Qemu, read_bytes, write_bytes}
use cross_shim.Memory.Region.{MemoryRegion, holds_range, find_region}
use cross_shim.Memory.Bytes.{read_bytes-write_bytes, read_bytes-write_disjoint}

abbrev pub Apart : ℕ → ℕ → ℕ → ℕ → Type 0
Apart a n b k = (a + n ≤ b) ⊎ (b + k ≤ a)

-- A region ends inside the address space, and its host memory is its own.
abbrev pub AllApart : MemoryRegion → List MemoryRegion → Type 0
AllApart r [] = Unit {0}
AllApart r (s ∷ rs) = Apart r.host_ptr r.size s.host_ptr s.size × AllApart r rs

abbrev pub RegionsValid : List MemoryRegion → Type 0
RegionsValid [] = Unit {0}
RegionsValid (r ∷ rs) = (r.address + r.size < u64_mod) × AllApart r rs × RegionsValid rs

-- The range of `a` and `n` inside the region, when no end wraps.
abbrev Inside : ℕ → ℕ → MemoryRegion → Type 0
Inside a n r = (r.address ≤ a) × (a + n ≤ r.address + r.size)

holds_range-Inside :
    (a n : ℕ) (r : MemoryRegion)
    → a + n < u64_mod
    → r.address + r.size < u64_mod
    → holds_range a n r ≡ true
    → Inside a n r
unfolding holds_range
holds_range-Inside a n r fits ends e =
    ground (arith, add64_lem a n fits, add64_lem r.address r.size ends)

found_in :
    (a n : ℕ) (rs : List MemoryRegion) (r s : MemoryRegion)
    → AllApart r rs
    → find_region (holds_range a n) rs ≡ some s
    → Apart r.host_ptr r.size s.host_ptr s.size
unfolding find_region
found_in a n [] r s ap e = ground arith
found_in a n (t ∷ rs) r s ap e = ground (arith, found_in a n rs r s ap.1)

-- Where the code reads or writes.
abbrev pub ptr : ℕ → MemoryRegion → ℕ
ptr a r = r.host_ptr + (a - r.address)

found-Inside :
    (a n : ℕ) (rs : List MemoryRegion) (r : MemoryRegion)
    → a + n < u64_mod
    → RegionsValid rs
    → find_region (holds_range a n) rs ≡ some r
    → Inside a n r
unfolding find_region
found-Inside a n [] r f v e = ground arith
found-Inside a n (t ∷ rs) r f v e =
    ground (arith, holds_range-Inside a n t f v.0, found-Inside a n rs r f v.2)

same_region :
    (a n b k : ℕ) (r : MemoryRegion)
    → Inside a n r
    → Inside b k r
    → Apart a n b k
    → Apart (ptr a r) n (ptr b r) k
same_region a n b k r i j d = ground arith

other_region :
    (a n b k : ℕ) (r s : MemoryRegion)
    → Inside a n r
    → Inside b k s
    → Apart r.host_ptr r.size s.host_ptr s.size
    → Apart (ptr a r) n (ptr b s) k
other_region a n b k r s i j d = ground arith

flip-Apart : (a n b k : ℕ) → Apart a n b k → Apart b k a n
flip-Apart a n b k d = ground arith

flip_sides : (a n b k : ℕ) → Apart a n b k → (b + k ≤ a) ⊎ (a + n ≤ b)
flip_sides a n b k d = ground arith

-- Ranges apart in the guest are apart in the host.
found_both :
    (a n b k : ℕ) (rs : List MemoryRegion) (r s : MemoryRegion)
    → a + n < u64_mod
    → b + k < u64_mod
    → RegionsValid rs
    → Apart a n b k
    → find_region (holds_range a n) rs ≡ some r
    → find_region (holds_range b k) rs ≡ some s
    → Apart (ptr a r) n (ptr b s) k
unfolding find_region
found_both a n b k [] r s fa fb v d ea eb = ground arith
found_both a n b k (t ∷ rs) r s fa fb v d ea eb = ground (
  arith,
  holds_range-Inside a n t fa v.0,
  holds_range-Inside b k t fb v.0,
  same_region a n b k t,
  other_region a n b k t s,
  other_region b k a n t r,
  found_in b k rs t s v.1,
  found_in a n rs t r v.1,
  found-Inside a n rs r fa v.2,
  found-Inside b k rs s fb v.2,
  flip-Apart (ptr b t) k (ptr a r) n,
  found_both a n b k rs r s fa fb v.2 d,
)

abbrev pub NoGuest : {G : Type 0} → Qemu G → MemoryManager G → Type 0
NoGuest q m = (m.qemu_ready && q.has_cpu m.guest) ≡ false

-- The record that a successful write returns, and what a read then finds, without a processor.
module _ {G : Type 0} (q : Qemu G) where
  Written : MemoryManager G → ℕ → List ℕ → MemoryManager G → Type 0
  Written m a bs m' =
      (r : MemoryRegion) × (find_region (holds_range a (length bs)) m.regions ≡ some r)
      × (m' ≡ record m { host = write_bytes m.host (ptr a r) bs })

  write-Written :
      (m m' : MemoryManager G) (a : ℕ) (bs : List ℕ)
      → NoGuest q m
      → write q m a bs ≡ some m'
      → Written m a bs m'
  unfolding write write_host Written
  write-Written m m' a bs off e =
      go (find_region (holds_range a (length bs)) m.regions) refl (rw off at e)
    where
      go :
          (o : Option MemoryRegion)
          → find_region (holds_range a (length bs)) m.regions ≡ o
          → (elim o [
            | none ↦ none
            | some r ↦ some (record m { host = write_bytes m.host (ptr a r) bs })
          ])
            ≡ some m'
          → (r : MemoryRegion) × (find_region (holds_range a (length bs)) m.regions ≡ some r)
            × (m' ≡ record m { host = write_bytes m.host (ptr a r) bs })
      go none f x = ground arith
      go (some r) f x = (r, f, ground arith)

  pub read-found :
      (m : MemoryManager G) (a n : ℕ) (r : MemoryRegion)
      → NoGuest q m
      → find_region (holds_range a n) m.regions ≡ some r
      → read q m a n ≡ some (read_bytes m.host (ptr a r) n)
  unfolding read read_host
  read-found m a n r off e = rw (off, e, read_host)

  pub read-missing :
      (m : MemoryManager G) (a n : ℕ)
      → NoGuest q m
      → find_region (holds_range a n) m.regions ≡ none
      → read q m a n ≡ none
  unfolding read read_host
  read-missing m a n off e = rw (off, e, read_host)

  -- While QEMU has no processor, the bytes that a successful `write` stored at an address are what
  -- `read` returns from it.
  pub read-write :
      (m m' : MemoryManager G) (a : ℕ) (bs : List ℕ)
      → NoGuest q m
      → write q m a bs ≡ some m'
      → read q m' a (length bs) ≡ some bs
  unfolding Written
  read-write m m' a bs off e =
      let (r, f, same) = write-Written m m' a bs off e in
      rw same (
        read-found (record m { host = write_bytes m.host (ptr a r) bs }) a (length bs) r off f
        ∙ ap some (read_bytes-write_bytes m.host (ptr a r) bs))

  -- While QEMU has no processor, a successful write leaves alone what stands elsewhere: if the two
  -- ranges are apart, no end wraps, and the regions have separate host memory, then `read` returns
  -- after the write what it returned before.
  pub read-write-Apart :
      (m m' : MemoryManager G) (a b n : ℕ) (bs : List ℕ)
      → NoGuest q m
      → RegionsValid m.regions
      → a + length bs < u64_mod
      → b + n < u64_mod
      → Apart a (length bs) b n
      → write q m a bs ≡ some m'
      → read q m' b n ≡ read q m b n
  unfolding Written
  read-write-Apart m m' a b n bs off v fa fb d e =
      let (r, f, same) = write-Written m m' a bs off e in
      let after = record m { host = write_bytes m.host (ptr a r) bs } in
      rw same (elim (Option-cases (find_region (holds_range b n) m.regions)) [
        | inl gone ↦ read-missing after b n off gone ∙ sym (read-missing m b n off gone)
        | inr (s, x) ↦
            read-found after b n s off x
            ∙ ap some (
                read_bytes-write_disjoint m.host (ptr a r) (ptr b s) n bs
                  (flip_sides _ _ _ _ (found_both a (length bs) b n m.regions r s fa fb v d f x)))
            ∙ sym (read-found m b n s off x)
      ])

  -- A successful write keeps the regions, and makes no processor.
  pub write-kept :
      (m m' : MemoryManager G) (a : ℕ) (bs : List ℕ)
      → NoGuest q m
      → write q m a bs ≡ some m'
      → NoGuest q m' × (m'.regions ≡ m.regions)
  unfolding Written
  write-kept m m' a bs off e =
      let (r, f, same) = write-Written m m' a bs off e in rw same (off, refl)
