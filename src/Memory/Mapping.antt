-- ===== src/Memory/Mapping.antt =====
-- MemoryManager::map, map_aligned, unmap and is_mapped.
use cross_shim.Base.{
  ℕ, ◌+◌, ◌-◌, ◌*◌, ◌≤◌, ◌<◌, ◌≡◌, ◌≢◌, refl, ap, ◌∙◌, Bool, true, false, ◌&&◌, ◌||◌, none, some,
  List, [], ◌∷◌, ◌++◌, inl, inr, Bool-cases, arith, ltb, leb, ◌==◌, if◌then◌else◌,
}
use cross_shim.Base.Word.{
  u64_mod, add64, sub64, add64_lem, sub64_lem, align_down, align_up, align_down_lem, align_up_lem,
  IsPower,
}
use cross_shim.Container.Dict
use cross_shim.Container.Dict.{lookup, lookup-insert, lookup-erase}
use cross_shim.Memory.{MemoryManager, map, map_aligned, unmap, is_mapped, page_size}
use cross_shim.Memory.Host.{Qemu}
use cross_shim.Memory.Region.{MemoryRegion, has_address, any_region, remove_region, release_host}

any_region-append :
    (p : MemoryRegion → Bool) (rs : List MemoryRegion) (r : MemoryRegion)
    → any_region p (rs ++ r ∷ []) ≡ (any_region p rs || p r)
unfolding any_region
any_region-append p [] r = ground arith
any_region-append p (s ∷ rs) r = ground (arith, any_region-append p rs r)

abbrev region_of : ℕ → ℕ → ℕ → ℕ → MemoryRegion
region_of a size perms ptr = record {
  address = a;
  size = size;
  perms = perms;
  host_ptr = ptr;
  is_shared = false;
}

-- No region has exactly this address and size.
abbrev pub Absent : ℕ → ℕ → List MemoryRegion → Type 0
Absent a size [] = Unit {0}
Absent a size (r ∷ rs) = (((r.address == a) && (r.size == size)) ≡ false) × Absent a size rs

remove_region-last :
    (a size perms ptr : ℕ) (rs : List MemoryRegion)
    → Absent a size rs
    → remove_region a size (rs ++ region_of a size perms ptr ∷ [])
      ≡ some (region_of a size perms ptr, rs)
unfolding remove_region
remove_region-last a size perms ptr [] v = ground arith
remove_region-last a size perms ptr (r ∷ rs) v =
    rw (v.0, remove_region-last a size perms ptr rs v.1)

unmap-found :
    {G : Type 0} (m : MemoryManager G) (a size : ℕ) (r : MemoryRegion) (rs : List MemoryRegion)
    → remove_region a size m.regions ≡ some (r, rs)
    → unmap m a size ≡ (record m { regions = rs; host_maps = release_host r m.host_maps }, true)
unfolding unmap
unmap-found m a size r rs e = rw (e, unmap)

module _ {G : Type 0} (q : Qemu G) (m : MemoryManager G) where
  map-regions :
      (a size perms ptr : ℕ)
      → (map q m a size perms (some ptr)).0.regions ≡ m.regions ++ region_of a size perms ptr ∷ []
  unfolding map
  map-regions a size perms ptr = elim (Bool-cases m.qemu_ready) [ inl e ↦ rw e | inr e ↦ rw e ]

  -- After a successful `map` an address is mapped exactly if it was before or lies in the new range
  -- (whose end does not wrap), whether or not QEMU is ready.
  pub is_mapped-map :
      (a size perms ptr x : ℕ)
      → a + size < u64_mod
      → is_mapped (map q m a size perms (some ptr)).0 x
        ≡ (is_mapped m x || (leb a x && ltb x (a + size)))
  unfolding is_mapped has_address
  is_mapped-map a size perms ptr x fits =
      ap (any_region (has_address x)) (map-regions a size perms ptr)
      ∙ any_region-append (has_address x) m.regions (region_of a size perms ptr)
      ∙ ap (λ (e : ℕ). any_region (has_address x) m.regions || (leb a x && ltb x e))
          (add64_lem a size fits)

  map-host_maps :
      (a size perms ptr : ℕ)
      → (map q m a size perms (some ptr)).0.host_maps ≡ Dict.insert ptr size m.host_maps
  unfolding map
  map-host_maps a size perms ptr = elim (Bool-cases m.qemu_ready) [ inl e ↦ rw e | inr e ↦ rw e ]

  map-true : (a size perms ptr : ℕ) → (map q m a size perms (some ptr)).1 ≡ true
  unfolding map
  map-true a size perms ptr = refl

  -- `map_aligned` returns true once mmap gives it memory, and every address of the range asked for
  -- is mapped then, if no end wraps.
  pub map_aligned-is_mapped :
      (a size perms ptr x : ℕ)
      → a + size + 2 * page_size < u64_mod
      → a ≤ x
      → x < a + size
      → (is_mapped (map_aligned q m a size perms (some ptr)).0 x ≡ true)
        × ((map_aligned q m a size perms (some ptr)).1 ≡ true)
  unfolding map_aligned
  map_aligned-is_mapped a size perms ptr x fits lo hi =
      let power : IsPower page_size = (12, omega arith, refl) in
      let down = align_down_lem a page_size power (omega arith) in
      let offset : sub64 a (align_down a page_size) ≡ a - align_down a page_size =
        sub64_lem a _ down.0 (omega arith) in
      let whole : add64 size (sub64 a (align_down a page_size))
          ≡ size + (a - align_down a page_size) =
        rw offset (add64_lem size _ (omega (arith, down))) in
      let up =
        align_up_lem (size + (a - align_down a page_size)) page_size power (omega (arith, down)) in
      rw whole (
        is_mapped-map _ _ perms ptr x (omega (arith, down, up)) ∙ ground (arith, down, up),
        map-true (align_down a page_size) (align_up (size + (a - align_down a page_size)) page_size)
            perms ptr,
      )

  released :
      (a size perms ptr : ℕ)
      → ptr ≢ 0
      → release_host (region_of a size perms ptr) (map q m a size perms (some ptr)).0.host_maps
        ≡ Dict.erase ptr (Dict.insert ptr size m.host_maps)
  unfolding release_host
  released a size perms ptr nonnull =
      let here : (ptr == 0) ≡ false = ground (arith, nonnull) in
      rw here (ap (Dict.erase ptr) (map-host_maps a size perms ptr))

  erased :
      (ptr size x : ℕ)
      → lookup x (Dict.erase ptr (Dict.insert ptr size m.host_maps))
        ≡ (if ptr == x then none else lookup x m.host_maps)
  erased ptr size x = ground (
    arith,
    lookup-erase ptr x (Dict.insert ptr size m.host_maps),
    lookup-insert ptr x size m.host_maps,
  )

  -- `unmap` of what `map` has just mapped returns true and leaves the regions and the host's
  -- mappings as they were before `map`, but for the address that mmap returned, which has none; no region had this address and size before, and mmap
  -- returned an address that is not null.
  pub unmap-map :
      (a size perms ptr : ℕ)
      → Absent a size m.regions
      → ptr ≢ 0
      → let out = unmap (map q m a size perms (some ptr)).0 a size in
        (out.1 ≡ true)
        × (out.0.regions ≡ m.regions)
        × ((x : ℕ) → lookup x out.0.host_maps ≡ (if ptr == x then none else lookup x m.host_maps))
  unmap-map a size perms ptr v nonnull =
      let m' = (map q m a size perms (some ptr)).0 in
      let r = region_of a size perms ptr in
      let found : remove_region a size m'.regions ≡ some (r, m.regions) =
        ap (remove_region a size) (map-regions a size perms ptr)
        ∙ remove_region-last a size perms ptr m.regions v in
      rw (unmap-found m' a size r m.regions found)
        (refl, refl, λ x. ap (lookup x) (released a size perms ptr nonnull) ∙ erased ptr size x)
