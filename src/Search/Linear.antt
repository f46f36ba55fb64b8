-- ===== src/Search/Linear.antt =====
-- lfind and lsearch of src/hle/hle_search.cpp over an array in the guest's memory. The guest's
-- comparison function is an argument, which sees the memory and returns its X0.
use cross_shim.Base.{
  ℕ, zero, suc, ◌+◌, ◌*◌, ◌%◌, ◌^◌, Bool, Option, none, some, List, replicate, ◌==◌, if◌then◌else◌,
}
use cross_shim.Memory.{MemoryManager, read, write}
use cross_shim.Memory.Host.{Qemu}
use cross_shim.Search.{Lookup, Insertion, found, placed, load, save}

-- base + i * size as a uint64_t.
unfoldable pub element : ℕ → ℕ → ℕ → ℕ
element base size i = (base + i * size) % 2 ^ 64

-- Whether the result is 0 as an int32_t.
unfoldable pub same : (ℕ → ℕ → ℕ) → ℕ → ℕ → Bool
same compar key elem = compar key elem % 2 ^ 32 == 0

-- The rounds for `n` more elements from the one at `i` on.
unfoldable pub first_same : (ℕ → ℕ → ℕ) → ℕ → ℕ → ℕ → ℕ → ℕ → Option ℕ
unfolding same
first_same compar key base size i zero = none
first_same compar key base size i (suc n) =
    let rest = first_same compar key base size (suc i) n in
    let elem = element base size i in if same compar key elem then some elem else rest

module _ {G : Type 0} (q : Qemu G) (compar : MemoryManager G → ℕ → ℕ → ℕ) where
  unfoldable pub lfind : MemoryManager G → ℕ → ℕ → ℕ → ℕ → Lookup
  unfolding first_same
  lfind m key base nmemb_ptr size = elim (load q m nmemb_ptr) [
    | none ↦ Lookup.unreadable
    | some nmemb ↦ elim (first_same (compar m) key base size 0 nmemb) [
      | none ↦ found 0
      | some elem ↦ found elem
    ]
  ]

  -- The buffer is zero where the key cannot be read.
  unfoldable pub read_key : MemoryManager G → ℕ → ℕ → List ℕ
  read_key m key size = elim (read q m key size) [ none ↦ replicate size 0 | some bytes ↦ bytes ]

  -- The key is copied behind the last element, and then the count is stored.
  unfoldable pub append_key : MemoryManager G → ℕ → ℕ → ℕ → ℕ → ℕ → MemoryManager G × ℕ
  unfolding read_key element
  append_key m key base nmemb_ptr size nmemb =
      let new_elem = element base size nmemb in
      let m1 : MemoryManager G = elim (write q m new_elem (read_key m key size)) [
        | none ↦ m
        | some m' ↦ m'
      ] in
      (save q m1 nmemb_ptr ((nmemb + 1) % 2 ^ 64), new_elem)

  unfoldable pub lsearch : MemoryManager G → ℕ → ℕ → ℕ → ℕ → Insertion G
  unfolding first_same append_key
  lsearch m key base nmemb_ptr size = elim (load q m nmemb_ptr) [
    | none ↦ Insertion.unreadable
    | some nmemb ↦ elim (first_same (compar m) key base size 0 nmemb) [
      | none ↦
          (let (m', new_elem) = append_key m key base nmemb_ptr size nmemb in placed m' new_elem)
      | some elem ↦ placed m elem
    ]
  ]
