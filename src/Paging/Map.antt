-- ===== src/Paging/Map.antt =====
-- `paging_map` and `paging_map_early` as an update of the slots of the last level, and as a query
-- sees it.
pub mod Slots
pub mod Query
pub mod Supply
