-- ===== src/Container.antt =====
-- The standard containers that the managers keep: std::map and std::unordered_map as lists of
-- entries in the order of their keys, std::multimap as a list of pairs in the order of their keys.
pub mod Dict
pub mod MultiMap
pub mod Total
