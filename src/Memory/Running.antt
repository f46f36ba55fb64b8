-- ===== src/Memory/Running.antt =====
-- Memory while QEMU has a processor, as it has when a handler runs.
use cross_shim.Base.{ℕ, ◌+◌, ◌<◌, ◌≡◌, refl, ap, ◌∙◌, ◌&&◌, true, some, List, length}
use cross_shim.Base.Word.{u64_mod}
use cross_shim.Memory.{MemoryManager, read, write, read_host}
use cross_shim.Memory.Host.{Qemu}
use cross_shim.Memory.Words.{little_endian}
use cross_shim.Memory.ReadWrite.{Apart}

-- How cpu_memory_rw_debug keeps the bytes of the guest: what was written is read back, what stands
-- elsewhere stays, and a write changes neither the processors nor what can be written.
pub record Debug {G : Type 0} (q : Qemu G) : Type 0 where
  pub read_back :
      (g : G) (a : ℕ) (bs : List ℕ)
      → (q.rw_write g a bs).1 ≡ true
      → q.rw_read (q.rw_write g a bs).0 a (length bs) ≡ some bs
  pub read_other :
      (g : G) (a b n : ℕ) (bs : List ℕ)
      → (q.rw_write g a bs).1 ≡ true
      → a + length bs < u64_mod
      → b + n < u64_mod
      → Apart a (length bs) b n
      → q.rw_read (q.rw_write g a bs).0 b n ≡ q.rw_read g b n
  pub keeps_cpu : (g : G) (a : ℕ) (bs : List ℕ) → q.has_cpu (q.rw_write g a bs).0 ≡ q.has_cpu g
  pub same_rights :
      (g : G) (a b : ℕ) (bs cs : List ℕ)
      → (q.rw_write (q.rw_write g a bs).0 b cs).1 ≡ (q.rw_write g b cs).1

module _ {G : Type 0} (q : Qemu G) where
  -- The manager reaches the guest through a processor.
  abbrev pub Sound : MemoryManager G → Type 0
  Sound m = (m.qemu_ready && q.has_cpu m.guest) ≡ true

  abbrev pub Writable : MemoryManager G → ℕ → Type 0
  Writable m a = (w : ℕ) → (q.rw_write m.guest a (little_endian 8 w)).1 ≡ true

  -- The state after a write in the guest.
  abbrev pub put : MemoryManager G → ℕ → List ℕ → MemoryManager G
  put m a bs = record m { guest = (q.rw_write m.guest a bs).0 }

  pub write-put :
      (m : MemoryManager G) (a : ℕ) (bs : List ℕ)
      → Sound m
      → (q.rw_write m.guest a bs).1 ≡ true
      → write q m a bs ≡ some (put m a bs)
  unfolding write
  write-put m a bs on done = rw (write, on, done) refl

  module _ (laws : Debug q) where
    pub put-Sound : (m : MemoryManager G) (a : ℕ) (bs : List ℕ) → Sound m → Sound (put m a bs)
    put-Sound m a bs on = ap (λ b. m.qemu_ready && b) (laws.keeps_cpu m.guest a bs) ∙ on

    pub put-Writable :
        (m : MemoryManager G) (a b : ℕ) (bs : List ℕ) → Writable m b → Writable (put m a bs) b
    put-Writable m a b bs able w = laws.same_rights m.guest a b bs (little_endian 8 w) ∙ able w

    pub read-put :
        (m : MemoryManager G) (a : ℕ) (bs : List ℕ)
        → Sound m
        → (q.rw_write m.guest a bs).1 ≡ true
        → read q (put m a bs) a (length bs) ≡ some bs
    unfolding read
    read-put m a bs on done = rw (read, put-Sound m a bs on, laws.read_back m.guest a bs done) refl

    pub read-put-Apart :
        (m : MemoryManager G) (a b n : ℕ) (bs : List ℕ)
        → Sound m
        → (q.rw_write m.guest a bs).1 ≡ true
        → a + length bs < u64_mod
        → b + n < u64_mod
        → Apart a (length bs) b n
        → read q (put m a bs) b n ≡ read q m b n
    unfolding read read_host
    read-put-Apart m a b n bs on done fa fb apart =
        rw (read, put-Sound m a bs on, on, laws.read_other m.guest a b n bs done fa fb apart) refl
