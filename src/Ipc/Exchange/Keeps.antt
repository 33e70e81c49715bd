-- ===== src/Ipc/Exchange/Keeps.antt =====
-- Each step keeps `IsGood`, or is the last step of `main`.
pub mod Parts
pub mod One
pub mod Two
pub mod Main
