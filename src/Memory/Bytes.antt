-- ===== src/Memory/Bytes.antt =====
-- What a block of bytes written to host memory changes.
use cross_shim.Base.{
  ℕ, zero, suc, ◌+◌, ◌≤◌, ◌<◌, ◌≡◌, refl, ap, ap₂, ◌∙◌, ◌⊎◌, inl, List, [], ◌∷◌, ◌++◌, arith,
  length,
}
use cross_shim.Memory.Host.{read_bytes, write_bytes, store}

write_bytes-outside :
    (h : ℕ → ℕ) (p x : ℕ) (bs : List ℕ) → (x < p) ⊎ (p + length bs ≤ x) → write_bytes h p bs x ≡ h x
unfolding write_bytes
write_bytes-outside h p x [] d = refl
write_bytes-outside h p x (b ∷ bs) d =
    write_bytes-outside (store h p b) (suc p) x bs (ground arith) ∙ ground arith

-- A range that the bytes do not reach reads as before.
pub read_bytes-write_disjoint :
    (h : ℕ → ℕ) (p q n : ℕ) (bs : List ℕ)
    → (q + n ≤ p) ⊎ (p + length bs ≤ q)
    → read_bytes (write_bytes h p bs) q n ≡ read_bytes h q n
unfolding read_bytes
read_bytes-write_disjoint h p q zero bs d = refl
read_bytes-write_disjoint h p q (suc n) bs d =
    ap₂ ◌∷◌ (write_bytes-outside h p q bs (ground arith))
      (read_bytes-write_disjoint h p (suc q) n bs (ground arith))

-- The bytes read back as they were written.
pub read_bytes-write_bytes :
    (h : ℕ → ℕ) (p : ℕ) (bs : List ℕ) → read_bytes (write_bytes h p bs) p (length bs) ≡ bs
unfolding read_bytes write_bytes
read_bytes-write_bytes h p [] = refl
read_bytes-write_bytes h p (b ∷ bs) =
    ap₂ ◌∷◌ (write_bytes-outside (store h p b) (suc p) p bs (inl (omega arith)) ∙ ground arith)
      (read_bytes-write_bytes (store h p b) (suc p) bs)

-- Two writes in a row are one.
pub write_bytes-append :
    (h : ℕ → ℕ) (p : ℕ) (xs ys : List ℕ)
    → write_bytes (write_bytes h p xs) (p + length xs) ys ≡ write_bytes h p (xs ++ ys)
unfolding write_bytes
write_bytes-append h p [] ys =
    let e : p + 0 ≡ p = omega arith in ap (λ (i : ℕ). write_bytes h i ys) e
write_bytes-append h p (x ∷ xs) ys =
    let e : p + suc (length xs) ≡ suc p + length xs = omega arith in
    ap (λ (i : ℕ). write_bytes (write_bytes (store h p x) (suc p) xs) i ys) e
    ∙ write_bytes-append (store h p x) (suc p) xs ys
