-- ===== src/MySort/Merging.antt =====
-- `merge` on two adjacent ranges of an array.
pub mod Steps
pub mod Temp
pub mod Range
