-- ===== src/Memory/Unmapping.antt =====
-- What MemoryManager::unmap takes away.
use cross_shim.Base.{
  ℕ, ◌≡◌, refl, ap, ◌&&◌, not, some, none, List, [], ◌∷◌, ◌++◌, ◌⊎◌, inl, inr, Bool-cases, arith,
  ◌==◌, if◌then◌else◌,
}
use cross_shim.Container.Dict.{lookup, lookup-erase}
use cross_shim.Memory.{MemoryManager, unmap}
use cross_shim.Memory.Region.{MemoryRegion, remove_region, release_host}
use cross_shim.Memory.Mapping.{Absent}

-- The first region with an address and a size is taken out of a list.
pub record Removed (a size : ℕ) (rs : List MemoryRegion) (r : MemoryRegion)
    (left : List MemoryRegion) : Type 0 where
  pub before : List MemoryRegion
  pub after : List MemoryRegion
  pub all : rs ≡ before ++ r ∷ after
  pub first : Absent a size before
  pub address : r.address ≡ a
  pub length : r.size ≡ size
  pub rest : left ≡ before ++ after

remove_region-Removed :
    (a size : ℕ) (rs : List MemoryRegion)
    → ((remove_region a size rs ≡ none) × Absent a size rs)
      ⊎ ((r : MemoryRegion) × (left : List MemoryRegion) × (remove_region a size rs
            ≡ some (r, left))
          × Removed a size rs r left)
unfolding remove_region
remove_region-Removed a size [] = inl (refl, tt)
remove_region-Removed a size (s ∷ rs) = elim (Bool-cases ((s.address == a) && (s.size == size))) [
  | inl here ↦ inr (
    s,
    rs,
    rw (remove_region, here) refl,
    record {
      before = [];
      after = rs;
      all = refl;
      first = tt;
      address = ground arith;
      length = ground arith;
      rest = refl;
    },
  )
  | inr other ↦ elim (remove_region-Removed a size rs) [
    | inl (e, absent) ↦ inl (rw (remove_region, other, e) refl, (other, absent))
    | inr (r, left, e, d) ↦ inr (
      r,
      s ∷ left,
      rw (remove_region, other, e) refl,
      record {
        before = s ∷ d.before;
        after = d.after;
        all = ap (◌∷◌ s) d.all;
        first = (other, d.first);
        address = d.address;
        length = d.length;
        rest = ap (◌∷◌ s) d.rest;
      },
    )
  ]
]

-- The host mapping of a region of the manager's own is gone, and no other.
abbrev pub HostReleased : MemoryRegion → List (ℕ × ℕ) → List (ℕ × ℕ) → Type 0
HostReleased r maps left =
    (x : ℕ)
    → lookup x left ≡ (
        if not r.is_shared && not (r.host_ptr == 0) && (x == r.host_ptr)
        then none
        else lookup x maps)

release_host-HostReleased :
    (r : MemoryRegion) (maps : List (ℕ × ℕ)) → HostReleased r maps (release_host r maps)
unfolding release_host
release_host-HostReleased r maps x = ground (arith, lookup-erase r.host_ptr x maps)

module _ {G : Type 0} where
  -- A region is gone with its host mapping, or there was none with this address and size.
  abbrev pub Unmapped : MemoryManager G → ℕ → ℕ → MemoryManager G → Type 0
  Unmapped m a size g =
      ((r : MemoryRegion) × Removed a size m.regions r g.regions
        × HostReleased r m.host_maps g.host_maps)
      ⊎ (Absent a size m.regions × (g.regions ≡ m.regions) × (g.host_maps ≡ m.host_maps))

  pub unmap-Unmapped : (m : MemoryManager G) (a size : ℕ) → Unmapped m a size (unmap m a size).0
  unfolding unmap
  unmap-Unmapped m a size = elim (remove_region-Removed a size m.regions) [
    | inl (e, absent) ↦ rw (unmap, e) (inr (absent, refl, refl))
    | inr (r, left, e, d) ↦ rw (unmap, e) (inl (r, d, release_host-HostReleased r m.host_maps))
  ]
