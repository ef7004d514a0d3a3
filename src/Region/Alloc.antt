-- ===== src/Region/Alloc.antt =====
-- `RegionHeap::alloc` (src/region.rs): the specification of a call, and its proof by branches.
pub mod Branches
pub mod Effect
pub mod Free
pub mod Spec
pub mod Update
