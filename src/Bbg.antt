-- ===== src/Bbg.antt =====
-- HW4_APES/PROBLEM1/BBG_pthread.c: one thread counts the letters of a text file, another one logs the
-- use of the processor whenever a timer has signalled, and both leave on the signal USR2.
pub mod Letters
pub mod Cpu
pub mod Threads
pub mod Tests
