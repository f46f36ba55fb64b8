-- ===== src/Search/Insert.antt =====
-- tsearch adds a node where the comparison function leads to none.
use cross_shim.Base.{ℕ, ◌+◌, ◌≤◌, ◌<◌, ◌≡◌, refl, ◌∙◌, some, arith}
use cross_shim.Base.Word.{u64_mod, add64_lem}
use cross_shim.Heap
use cross_shim.Memory.{MemoryManager, read, read_host}
use cross_shim.Memory.Host.{Qemu}
use cross_shim.Memory.ReadWrite.{Apart}
use cross_shim.Search.{placed, load, save, new_node, attach}
use cross_shim.Memory.Running.{Debug, Sound, Writable}
use cross_shim.Search.Words.{save-Sound, save-Writable, load-save, load-save-Apart}
use cross_shim.Search.Shape.{Tree, leaf, fork, Holds}

module _ {G : Type 0} (q : Qemu G) where
  -- The address that the heap gives a node.
  abbrev pub given : MemoryManager G → ℕ
  given m = (Heap.allocate m.heap 24 8).1

  -- The words of the subtrees can be written.
  abbrev pub TreeWritable : MemoryManager G → Tree → Type 0
  TreeWritable m leaf = Unit {0}
  TreeWritable m (fork a k l r) =
      Writable q m (a + 8) × Writable q m (a + 16) × TreeWritable m l × TreeWritable m r

  -- A block of memory for a node.
  abbrev pub Room : MemoryManager G → ℕ → Type 0
  Room m n =
      (0 < n) × (n + 24 < u64_mod) × Writable q m n × Writable q m (n + 8) × Writable q m (n + 16)

  -- The state from which a node is attached: the heap has moved on.
  abbrev pub after_allocate : MemoryManager G → MemoryManager G
  after_allocate m = record m { heap = (Heap.allocate m.heap 24 8).0 }

  load-after : (m : MemoryManager G) (b : ℕ) → load q (after_allocate m) b ≡ load q m b
  unfolding load read read_host
  load-after m b = refl

module _ {G : Type 0} (q : Qemu G) (laws : Debug q) where
  -- The node that new_node makes, and all that it leaves alone.
  abbrev Fresh : MemoryManager G → MemoryManager G → ℕ → ℕ → Type 0
  Fresh m m' n key =
      Sound q m'
      × (load q m' n ≡ some key)
      × (load q m' (n + 8) ≡ some 0)
      × (load q m' (n + 16) ≡ some 0)
      × ((b : ℕ) → b + 8 < u64_mod → Apart b 8 n 24 → load q m' b ≡ load q m b)
      × ((b : ℕ) → Writable q m b → Writable q m' b)

  saved-Fresh :
      (m : MemoryManager G) (n key : ℕ)
      → Sound q m
      → Room q m n
      → key < u64_mod
      → Fresh m (save q (save q (save q m n key) (n + 8) 0) (n + 16) 0) n key
  saved-Fresh m n key sound (pos, fits, r0, r8, r16) word =
      let m1 = save q m n key in
      let m2 = save q m1 (n + 8) 0 in
      let s1 = save-Sound q laws m n key sound r0 in
      let r8' = save-Writable q laws m n (n + 8) key sound r0 r8 in
      let s2 = save-Sound q laws m1 (n + 8) 0 s1 r8' in
      let r16' = save-Writable q laws m n (n + 16) key sound r0 r16 in
      let r16'' = save-Writable q laws m1 (n + 8) (n + 16) 0 s1 r8' r16' in
      let past = λ (b : ℕ) (fb : b + 8 < u64_mod) (d : Apart (n + 16) 8 b 8).
        load-save-Apart q laws m2 (n + 16) b 0 s2 r16'' (omega arith) fb d in
      let past8 = λ (b : ℕ) (fb : b + 8 < u64_mod) (d : Apart (n + 8) 8 b 8).
        load-save-Apart q laws m1 (n + 8) b 0 s1 r8' (omega arith) fb d in
      (
        save-Sound q laws m2 (n + 16) 0 s2 r16'',
        past n (omega arith) (omega arith)
            ∙ past8 n (omega arith) (omega arith)
            ∙ load-save q laws m n key sound r0 word,
        past (n + 8) (omega arith) (omega arith)
            ∙ load-save q laws m1 (n + 8) 0 s1 r8' (omega arith),
        load-save q laws m2 (n + 16) 0 s2 r16'' (omega arith),
        λ b fb d.
            past b fb (omega arith)
            ∙ past8 b fb (omega arith)
            ∙ load-save-Apart q laws m n b key sound r0 (omega arith) fb (omega arith),
        λ p able. save-Writable q laws m2 (n + 16) p 0 s2 r16'' (
            save-Writable q laws m1 (n + 8) p 0 s1 r8'
              (save-Writable q laws m n p key sound r0 able)),
      )

  -- Where its address goes, a word apart from the new node.
  pub attach-Fresh :
      (m : MemoryManager G) (key place : ℕ)
      → Sound q m
      → Room q m (given q m)
      → key < u64_mod
      → place + 8 < u64_mod
      → Writable q m place
      → Apart place 8 (given q m) 24
      → (m' : MemoryManager G) × (attach q m key place ≡ placed m' (given q m))
        × Sound q m'
        × Holds q m' (given q m) (fork (given q m) key leaf leaf)
        × (load q m' place ≡ some (given q m))
        × ((b : ℕ)
            → b + 8 < u64_mod
            → Apart b 8 (given q m) 24
            → Apart b 8 place 8
            → load q m' b ≡ load q m b)
  unfolding attach new_node
  attach-Fresh m key place sound room word fits able d =
      let n = given q m in
      let e8 = add64_lem n 8 (omega (arith, room.1)) in
      let e16 = add64_lem n 16 (omega (arith, room.1)) in
      let made = save q (save q (save q (after_allocate q m) n key) (n + 8) 0) (n + 16) 0 in
      let (sound', k, l, r, same, kept) = saved-Fresh (after_allocate q m) n key sound room word in
      let past = λ (b : ℕ) (fb : b + 8 < u64_mod) (e : Apart place 8 b 8).
        load-save-Apart q laws made place b n sound' (kept place able) fits fb e in
      let same' =
        λ (b : ℕ) (fb : b + 8 < u64_mod) (e : Apart b 8 n 24). same b fb e ∙ load-after q m b in
      let own = λ (c : ℕ) (lo : n ≤ c) (hi : c + 8 ≤ n + 24).
        past c (omega (arith, room.1)) (omega (arith, d)) in
      (
        save q made place n,
        rw (attach, e8, e16) refl,
        save-Sound q laws made place n sound' (kept place able),
        (
          refl,
          room.0,
          room.1,
          own n (omega arith) (omega arith) ∙ k,
          (0, own (n + 8) (omega arith) (omega arith) ∙ l, refl),
          (0, own (n + 16) (omega arith) (omega arith) ∙ r, refl),
        ),
        load-save q laws made place n sound' (kept place able) (omega (arith, room.1)),
        λ b fb away other. past b fb (omega arith) ∙ same' b fb away,
      )
