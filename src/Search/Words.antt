-- ===== src/Search/Words.antt =====
-- Words that are saved in the guest's memory while QEMU has a processor.
use cross_shim.Base.{ℕ, ◌+◌, ◌<◌, ◌≡◌, refl, ap, some, arith}
use cross_shim.Base.Word.{u64_mod}
use cross_shim.Memory.{MemoryManager, read}
use cross_shim.Memory.Host.{Qemu}
use cross_shim.Memory.Words.{little_endian, from_bytes-little_endian}
use cross_shim.Memory.ReadWrite.{Apart}
use cross_shim.Memory.Running.{
  Debug, Sound, Writable, put, write-put, put-Sound, put-Writable, read-put, read-put-Apart,
}
use cross_shim.Search.{load, save}

module _ {G : Type 0} (q : Qemu G) where
  pub save-put :
      (m : MemoryManager G) (a w : ℕ)
      → Sound q m
      → Writable q m a
      → save q m a w ≡ put q m a (little_endian 8 w)
  unfolding save
  save-put m a w on able = rw (save, write-put q m a (little_endian 8 w) on (able w)) refl

  module _ (laws : Debug q) where
    pub save-Sound :
        (m : MemoryManager G) (a w : ℕ) → Sound q m → Writable q m a → Sound q (save q m a w)
    save-Sound m a w on able =
        rw (save-put m a w on able) (put-Sound q laws m a (little_endian 8 w) on)

    pub save-Writable :
        (m : MemoryManager G) (a b w : ℕ)
        → Sound q m
        → Writable q m a
        → Writable q m b
        → Writable q (save q m a w) b
    save-Writable m a b w on able other =
        rw (save-put m a w on able) (put-Writable q laws m a b (little_endian 8 w) other)

    pub load-save :
        (m : MemoryManager G) (a w : ℕ)
        → Sound q m
        → Writable q m a
        → w < u64_mod
        → load q (save q m a w) a ≡ some w
    unfolding load little_endian
    load-save m a w on able word =
        let back : read q (put q m a (little_endian 8 w)) a 8 ≡ some (little_endian 8 w) =
          read-put q laws m a (little_endian 8 w) on (able w) in
        rw (save-put m a w on able)
          (rw (load, back) (ap some (from_bytes-little_endian 8 w (omega arith))))

    pub load-save-Apart :
        (m : MemoryManager G) (a b w : ℕ)
        → Sound q m
        → Writable q m a
        → a + 8 < u64_mod
        → b + 8 < u64_mod
        → Apart a 8 b 8
        → load q (save q m a w) b ≡ load q m b
    unfolding load little_endian
    load-save-Apart m a b w on able fa fb apart =
        let same : read q (put q m a (little_endian 8 w)) b 8 ≡ read q m b 8 =
          read-put-Apart q laws m a b 8 (little_endian 8 w) on (able w) fa fb apart in
        rw (save-put m a w on able) (rw (load, same) refl)
