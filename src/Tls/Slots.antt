-- ===== src/Tls/Slots.antt =====
-- The slots of the thread-local block.
use cross_shim.Base.{
  ℕ, ◌+◌, ◌*◌, ◌^◌, ◌<◌, ◌≡◌, refl, ap, ◌∙◌, true, false, some, List, ◌==◌, if◌then◌else◌, arith,
  inl, inr, Bool-cases, Option-cases,
}
use cross_shim.Base.Word.{u64_mod, add64, add64_lem}
use cross_shim.Memory.{MemoryManager, read, write}
use cross_shim.Memory.Host.{Qemu}
use cross_shim.Memory.Words.{little_endian, from_bytes-little_endian}
use cross_shim.Memory.ReadWrite.{Apart, RegionsValid, NoGuest, read-write, read-write-Apart}
use cross_shim.Tls.{
  TlsManager, TlsSlot, slot_number, tls_slot_self, tls_slot_thread_id, tls_slot_errno,
  tls_slot_opengl_api, tls_slot_opengl, tls_slot_stack_guard, tls_slot_dtv, tls_slot_bionic_tls,
  slot_address, word_or_zero, store_bytes, set_slot, get_slot,
}

below_eight : (s : TlsSlot) → slot_number s < 8
unfolding slot_number
below_eight tls_slot_self = omega arith
below_eight tls_slot_thread_id = omega arith
below_eight tls_slot_errno = omega arith
below_eight tls_slot_opengl_api = omega arith
below_eight tls_slot_opengl = omega arith
below_eight tls_slot_stack_guard = omega arith
below_eight tls_slot_dtv = omega arith
below_eight tls_slot_bionic_tls = omega arith

slots-Apart :
    (s s' : TlsSlot) (base : ℕ)
    → (slot_number s == slot_number s') ≡ false
    → Apart (base + slot_number s * 8) 8 (base + slot_number s' * 8) 8
slots-Apart s s' base e = ground arith

module _ {G : Type 0} (q : Qemu G) where
  address_lem :
      (t : TlsManager G) (s : TlsSlot)
      → t.tls_base + 64 < u64_mod
      → slot_address t s ≡ t.tls_base + slot_number s * 8
  unfolding slot_address
  address_lem t s fits =
      add64_lem t.tls_base (slot_number s * 8) (omega (arith, below_eight s, fits))

  inside :
      (t : TlsManager G) (s : TlsSlot) → t.tls_base + 64 < u64_mod → slot_address t s + 8 < u64_mod
  inside t s fits = omega (arith, address_lem t s fits, below_eight s, fits)

  addresses-Apart :
      (t : TlsManager G) (s s' : TlsSlot)
      → t.tls_base + 64 < u64_mod
      → (slot_number s == slot_number s') ≡ false
      → Apart (slot_address t s) 8 (slot_address t s') 8
  addresses-Apart t s s' fits e =
      rw (address_lem t s fits, address_lem t s' fits) (slots-Apart s s' t.tls_base e)

  same_address :
      (t : TlsManager G) (s s' : TlsSlot)
      → (slot_number s == slot_number s') ≡ true
      → slot_address t s' ≡ slot_address t s
  unfolding slot_address
  same_address t s s' e =
      let same : slot_number s' ≡ slot_number s = ground (arith, e) in
      ap (λ n. add64 t.tls_base (n * 8)) same

  -- A store that returns true has written.
  store_bytes-written :
      (t : TlsManager G) (a : ℕ) (bs : List ℕ)
      → (store_bytes q t a bs).1 ≡ true
      → (m : MemoryManager G) × (write q t.memory a bs ≡ some m)
        × ((store_bytes q t a bs).0 ≡ record t { memory = m })
  unfolding store_bytes
  store_bytes-written t a bs done = elim (Option-cases (write q t.memory a bs)) [
    | inl w ↦ ground (arith, rw (store_bytes, w) at done)
    | inr (m, w) ↦ (m, w, rw (store_bytes, w) refl)
  ]

  set_slot-written :
      (t : TlsManager G) (s : TlsSlot) (v : ℕ)
      → (set_slot q t s v).1 ≡ true
      → ((t.tls_base == 0) ≡ false)
        × (m : MemoryManager G) × (write q t.memory (slot_address t s) (little_endian 8 v) ≡ some m)
        × ((set_slot q t s v).0 ≡ record t { memory = m })
  unfolding set_slot
  set_slot-written t s v done = elim (Bool-cases (t.tls_base == 0)) [
    | inl e ↦ ground (arith, rw (set_slot, e) at done)
    | inr e ↦
        let (m, w, same) =
          store_bytes-written t (slot_address t s) (little_endian 8 v) (rw (set_slot, e) at done) in
        (e, m, w, rw (set_slot, e) same)
  ]

  -- While QEMU has no processor, the regions of memory end inside the address space and have separate
  -- host memory, and no end of the block wraps, the slots are an array of eight
  -- words: after a set_slot that returned true, get_slot of the same slot is the value, which is
  -- below 2^64, and get_slot of any other slot is what it was.
  pub get_slot-set_slot :
      (t : TlsManager G) (s s' : TlsSlot) (v : ℕ)
      → NoGuest q t.memory
      → RegionsValid t.memory.regions
      → t.tls_base + 64 < u64_mod
      → v < 256 ^ 8
      → (set_slot q t s v).1 ≡ true
      → get_slot q (set_slot q t s v).0 s'
        ≡ (if slot_number s == slot_number s' then v else get_slot q t s')
  unfolding get_slot slot_address little_endian word_or_zero
  get_slot-set_slot t s s' v off valid fits small done =
      let (some_block, m, wrote, same) = set_slot-written t s v done in
      let kept = read-write q t.memory m (slot_address t s) (little_endian 8 v) off wrote in
      elim (Bool-cases (slot_number s == slot_number s')) [
        | inl e ↦
            rw (e, same, get_slot, some_block)
              (ap word_or_zero (ap (λ a. read q m a 8) (same_address t s s' e) ∙ kept)
                ∙ from_bytes-little_endian 8 v small)
        | inr e ↦
            rw (e, same, get_slot, some_block)
              (ap word_or_zero (
                read-write-Apart q t.memory m (slot_address t s) (slot_address t s') 8
                  (little_endian 8 v) off valid (inside t s fits) (inside t s' fits)
                  (addresses-Apart t s s' fits e) wrote))
      ]
