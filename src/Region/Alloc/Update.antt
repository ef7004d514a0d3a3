-- ===== src/Region/Alloc/Update.antt =====
-- The well-formedness of a heap of src/region.rs after one region has changed.
use samsara.Prelude.{
  ℕ, ◌≡◌, ◌≢◌, some, get_elem?, set, length-set, get_elem?-set, lt_length_of_get_elem?, arith, List,
}
use samsara.Region.{Region, free, allocating, RegionHeap}
use samsara.Region.Invariant.{IsRegion, IsValid}
use samsara.Region.Alloc.Spec.{SameData, SameData-refl}

abbrev pub NoneAllocating : RegionHeap → Type 0
NoneAllocating h = (j : ℕ) (s : Region) → get_elem? h.regions j ≡ some s → s.state ≢ allocating

module _ {h : RegionHeap} (v : IsValid h) (k : ℕ) {r r' : Region}
    (here : get_elem? h.regions k ≡ some r) (w : IsRegion r') where
  pub get_set_self : get_elem? (set h.regions k r') k ≡ some r'
  get_set_self =
      ground (arith, get_elem?-set h.regions k k r', lt_length_of_get_elem? h.regions k here)

  pub regions_set : (i : ℕ) (s : Region) → get_elem? (set h.regions k r') i ≡ some s → IsRegion s
  regions_set i s e = ground (arith, get_elem?-set h.regions k i r', v.region i s)

  pub IsValid-bumped :
      NoneAllocating h
      → r'.state ≡ allocating
      → IsValid (record { regions = set h.regions k r'; current = some k })
  IsValid-bumped quiet e = record {
    region = regions_set;
    few = omega (arith, length-set h.regions k r', v.few);
    only_current = λ i s g a. ground (arith, get_elem?-set h.regions k i r', quiet i s);
    in_use = λ i c. (r', ground (arith, get_set_self), ground arith);
  }

  -- A change of the current region that does not free it.
  pub IsValid-current :
      h.current ≡ some k → r'.state ≢ free → IsValid (record h { regions = set h.regions k r' })
  IsValid-current c ne = record {
    region = regions_set;
    few = omega (arith, length-set h.regions k r', v.few);
    only_current = λ i s g a. ground (arith, get_elem?-set h.regions k i r', v.only_current i s);
    in_use = λ i d. (r', ground (arith, get_set_self), ne);
  }

  pub NoneAllocating-current :
      h.current ≡ some k
      → r'.state ≢ allocating
      → NoneAllocating (record h { regions = set h.regions k r' })
  NoneAllocating-current c ne j s g = ground (
    arith,
    get_elem?-set h.regions k j r',
    v.only_current j s,
    lt_length_of_get_elem? h.regions k here,
  )

-- A change of region `k` alone leaves the others.
pub set_others :
    (rs : List Region) (k : ℕ) (r' : Region) (j : ℕ) (s : Region)
    → j ≢ k
    → get_elem? rs j ≡ some s
    → (s' : Region) × (get_elem? (set rs k r') j ≡ some s') × SameData s s'
set_others rs k r' j s ne e = (s, ground (arith, get_elem?-set rs k j r'), SameData-refl s)
