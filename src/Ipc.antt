-- ===== src/Ipc.antt =====
-- HW4_APES/PROBLEM2: what the programs for two threads share. The sources declare the same packets,
-- the same ten messages on each side, and the same log lines.
pub mod Packets
pub mod Messages
pub mod Transport
pub mod Exchange
pub mod Fifo
