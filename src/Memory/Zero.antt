-- ===== src/Memory/Zero.antt =====
-- MemoryManager::zero, which writes in chunks.
use cross_shim.Base.{
  ℕ, zero, suc, ◌+◌, ◌-◌, ◌≤◌, ◌<◌, ◌≡◌, ap, ap₂, refl, ◌∙◌, inl, inr, not, some, List, [], ◌∷◌,
  Bool-cases, arith, ltb, leb, ◌==◌, length, replicate, min, replicate-append, length-replicate,
  ◌&&◌, true, Bool,
}
use cross_shim.Base.Word.{u64_mod, add64, add64_lem}
use cross_shim.Memory.{MemoryManager, write, write_host, zero_loop, zero_memory, zero_chunk}
use cross_shim.Memory.Host.{Qemu, write_bytes}
use cross_shim.Memory.Region.{MemoryRegion, holds_range, find_region}
use cross_shim.Memory.Bytes.{write_bytes-append}
use cross_shim.Memory.ReadWrite.{NoGuest, Apart}

-- The guest ranges of the regions do not overlap, and end inside the address space.
abbrev pub Clear : MemoryRegion → List MemoryRegion → Type 0
Clear r [] = Unit {0}
Clear r (s ∷ rs) = Apart r.address r.size s.address s.size × Clear r rs

abbrev pub Separate : List MemoryRegion → Type 0
Separate [] = Unit {0}
Separate (r ∷ rs) = (r.address + r.size < u64_mod) × Clear r rs × Separate rs

holds_iff :
    (a n : ℕ) (r : MemoryRegion)
    → a + n < u64_mod
    → r.address + r.size < u64_mod
    → holds_range a n r
      ≡ ((leb r.address a && leb (a + n) (r.address + r.size)) && not (r.host_ptr == 0))
unfolding holds_range
holds_iff a n r fa fr = rw (add64_lem a n fa, add64_lem r.address r.size fr)

abbrev pub Inside : ℕ → ℕ → MemoryRegion → Type 0
Inside b k r = (r.address ≤ b) × (b + k ≤ r.address + r.size)

Clear-Inside :
    (r s : MemoryRegion) (b k : ℕ) (rs : List MemoryRegion)
    → Clear r rs
    → find_region (holds_range b k) rs ≡ some s
    → Apart r.address r.size s.address s.size
unfolding find_region
Clear-Inside r s b k [] c e = ground arith
Clear-Inside r s b k (t ∷ rs) c e = ground (arith, Clear-Inside r s b k rs c.1)

pub found-Inside :
    (a n : ℕ) (rs : List MemoryRegion) (r : MemoryRegion)
    → a + n < u64_mod
    → Separate rs
    → find_region (holds_range a n) rs ≡ some r
    → Inside a n r
unfolding find_region
found-Inside a n [] r f v e = ground arith
found-Inside a n (t ∷ rs) r f v e =
    ground (arith, holds_iff a n t f v.0, found-Inside a n rs r f v.2)

-- The region of a range is the region of each part that is not empty.
pub find_part :
    (a n b k : ℕ) (rs : List MemoryRegion) (r : MemoryRegion)
    → a + n < u64_mod
    → Separate rs
    → a ≤ b
    → b + k ≤ a + n
    → 0 < k
    → find_region (holds_range a n) rs ≡ some r
    → find_region (holds_range b k) rs ≡ some r
unfolding find_region
find_part a n b k [] r f v lo hi pos e = ground arith
find_part a n b k (t ∷ rs) r f v lo hi pos e = ground (
  arith,
  holds_iff a n t f v.0,
  holds_iff b k t (omega arith) v.0,
  Clear-Inside t r a n rs v.1,
  found-Inside a n rs r f v.2,
  find_part a n b k rs r f v.2 lo hi pos,
)

module _ {G : Type 0} (q : Qemu G) where
  pub write-found :
      (m : MemoryManager G) (a : ℕ) (bs : List ℕ) (r : MemoryRegion)
      → NoGuest q m
      → find_region (holds_range a (length bs)) m.regions ≡ some r
      → write q m a bs
        ≡ some (record m { host = write_bytes m.host (r.host_ptr + (a - r.address)) bs })
  unfolding write write_host
  write-found m a bs r off e = rw (off, e, write_host)

  -- What is left of a range of `n` bytes from `offset` on.
  abbrev zeroed : MemoryManager G → ℕ → ℕ → ℕ → MemoryManager G
  zeroed m p n offset = record m {
    host = write_bytes m.host (p + offset) (replicate (n - offset) 0);
  }

  module _ (a n c : ℕ) (r : MemoryRegion) (fits : a + n < u64_mod) (pos : 0 < n → 0 < c) where
    abbrev base : ℕ
    base = r.host_ptr + (a - r.address)

    chunks :
        (h : ℕ → ℕ) (p i k : ℕ)
        → i + k ≤ n
        → write_bytes
            (write_bytes h (p + i) (replicate k 0))
            (p + (i + k))
            (replicate (n - (i + k)) 0)
          ≡ write_bytes h (p + i) (replicate (n - i) 0)
    chunks h p i k le =
        let start : p + (i + k) ≡ p + i + length {A = ℕ} (replicate k 0) =
          omega (arith, length-replicate {A = ℕ} k 0) in
        let all : k + (n - (i + k)) ≡ n - i = omega arith in
        rw (
          start,
          write_bytes-append h (p + i) (replicate k 0) (replicate (n - (i + k)) 0),
          replicate-append {A = ℕ} k (n - (i + k)) 0,
          all,
        )

    write_chunk :
        (m : MemoryManager G) (i k : ℕ)
        → NoGuest q m
        → Separate m.regions
        → find_region (holds_range a n) m.regions ≡ some r
        → i + k ≤ n
        → 0 < k
        → write q m (add64 a i) (replicate k 0)
          ≡ some (record m { host = write_bytes m.host (base + i) (replicate k 0) })
    write_chunk m i k off v e le some' =
        let at : add64 a i ≡ a + i = add64_lem a i (omega arith) in
        let size : length {A = ℕ} (replicate k 0) ≡ k = length-replicate k 0 in
        let part = find_part a n (a + i) k m.regions r fits v (omega arith) (omega arith) some' e in
        let p : r.host_ptr + (a + i - r.address) ≡ base + i =
          omega (arith, found-Inside a n m.regions r fits v e) in
        rw (at, ← p)
          (write-found m (a + i) (replicate k 0) r off
            (ap (λ (j : ℕ). find_region (holds_range (a + i) j) m.regions) size ∙ part))

    zero_loop_lem :
        (fuel : ℕ) (m : MemoryManager G) (offset : ℕ)
        → NoGuest q m
        → Separate m.regions
        → find_region (holds_range a n) m.regions ≡ some r
        → offset ≤ n
        → n - offset < fuel
        → zero_loop q fuel m a n c offset ≡ (zeroed m base n offset, true)
    unfolding zero_loop write_bytes
    zero_loop_lem zero m offset off v e le enough = absurd (omega arith)
    zero_loop_lem (suc fuel) m offset off v e le enough = elim (Bool-cases (ltb offset n)) [
      | inl more ↦
          let k = min (n - offset) c in
          let lt : offset < n = ground arith in
          let step : 0 < k = omega (arith, pos (omega arith)) in
          let le' : offset + k ≤ n = omega arith in
          let m' = record m { host = write_bytes m.host (base + offset) (replicate k 0) } in
          rw (more, zero_loop, write_chunk m offset k off v e le' step)
            (zero_loop_lem fuel m' (offset + k) off v e le' (omega arith)
              ∙ ap {B = MemoryManager G × Bool} (λ (h : ℕ → ℕ). (record m { host = h }, true))
                  (chunks m.host base offset k le'))
      | inr done ↦ let z : n - offset ≡ 0 = ground arith in rw (done, zero_loop, z)
    ]

  -- `zero` succeeds on a range that one region holds, and does there what one write of zeros does,
  -- whatever the number of chunks: while QEMU has no processor, and if the regions do not overlap
  -- in the guest and no end wraps.
  pub zero_memory-write :
      (m : MemoryManager G) (a n : ℕ) (r : MemoryRegion)
      → NoGuest q m
      → Separate m.regions
      → a + n < u64_mod
      → find_region (holds_range a n) m.regions ≡ some r
      → ((zero_memory q m a n).1 ≡ true)
        × (write q m a (replicate n 0) ≡ some (zero_memory q m a n).0)
  unfolding zero_memory
  zero_memory-write m a n r off v fits e =
      let chunk : 0 < n → 0 < min n zero_chunk = λ p. omega arith in
      let p = r.host_ptr + (a - r.address) in
      let loop : zero_memory q m a n ≡ (zeroed m p n 0, true) =
        zero_loop_lem a n (min n zero_chunk) r fits chunk (suc n) m 0 off v e (omega arith)
          (omega arith) in
      let size : length {A = ℕ} (replicate n 0) ≡ n = length-replicate n 0 in
      let once =
        write-found m a (replicate n 0) r off
          (ap (λ (j : ℕ). find_region (holds_range a j) m.regions) size ∙ e) in
      let same : record m { host = write_bytes m.host p (replicate n 0) } ≡ zeroed m p n 0 =
        ap₂ (λ (i j : ℕ). record m { host = write_bytes m.host i (replicate j 0) }) (omega arith)
          (omega arith) in
      rw loop (refl, once ∙ ap some same)
