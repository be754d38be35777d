-- ===== src/Maps.antt =====
-- The two map types of the standard library that the chain state uses.
pub mod BTreeMap
pub mod HashMap
pub mod Totals
