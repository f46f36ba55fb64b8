-- ===== src/Memory/Region.antt =====
-- MemoryRegion of include/memory_manager.h, and the loops of src/memory_manager.cpp over the list of
-- regions.
use cross_shim.Base.{
  ℕ, ◌+◌, ◌-◌, Bool, true, false, ◌&&◌, not, Option, none, some, List, [], ◌∷◌, ltb, leb, ◌==◌,
  if◌then◌else◌,
}
use cross_shim.Base.Word.{add64}
use cross_shim.Container.Dict

-- `host_ptr` is an address of the host, 0 for a null pointer.
pub record MemoryRegion : Type 0 where
  pub address : ℕ
  pub size : ℕ
  pub perms : ℕ
  pub host_ptr : ℕ
  pub is_shared : Bool

-- `munmap` of what the manager owns.
unfoldable pub release_host : MemoryRegion → List (ℕ × ℕ) → List (ℕ × ℕ)
release_host r maps =
    if not (r.host_ptr == 0) && not r.is_shared then Dict.erase r.host_ptr maps else maps

unfoldable pub release_all : List MemoryRegion → List (ℕ × ℕ) → List (ℕ × ℕ)
release_all [] maps = maps
release_all (r ∷ rs) maps = release_all rs (release_host r maps)

-- Is the address inside the region, its end computed as the code does?
unfoldable pub has_address : ℕ → MemoryRegion → Bool
has_address a r = leb r.address a && ltb a (add64 r.address r.size)

unfoldable pub any_region : (MemoryRegion → Bool) → List MemoryRegion → Bool
any_region p [] = false
any_region p (r ∷ rs) = let rest = any_region p rs in if p r then true else rest

-- The first region that holds the whole range and has host memory.
unfoldable pub holds_range : ℕ → ℕ → MemoryRegion → Bool
holds_range a size r =
    (leb r.address a && leb (add64 a size) (add64 r.address r.size)) && not (r.host_ptr == 0)

unfoldable pub find_region : (MemoryRegion → Bool) → List MemoryRegion → Option MemoryRegion
find_region p [] = none
find_region p (r ∷ rs) = let rest = find_region p rs in if p r then some r else rest

-- The second fallback of get_host_ptr.
unfoldable pub region_ptr : ℕ → Option MemoryRegion → ℕ
region_ptr a none = 0
region_ptr a (some r) = r.host_ptr + (a - r.address)

unfoldable pub remove_region : ℕ → ℕ → List MemoryRegion → Option (MemoryRegion × List MemoryRegion)
remove_region a size [] = none
remove_region a size (r ∷ rs) =
    let rest = remove_region a size rs in
    if (r.address == a) && (r.size == size)
    then some (r, rs)
    else elim rest [ none ↦ none | some (x, xs) ↦ some (x, r ∷ xs) ]
