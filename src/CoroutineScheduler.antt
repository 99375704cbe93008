-- ===== src/CoroutineScheduler.antt =====
-- tarsx/CoroutineScheduler.h and CoroutineScheduler.cc: coroutines in five lists by their status.
-- The children hold the parts of the program, and what is proved of them.
pub mod State
pub mod Pool
pub mod Wake
pub mod Run
pub mod Inv
pub mod Moves
pub mod WakeInv
pub mod PoolInv
pub mod Create
pub mod Init
pub mod RunInv
pub mod Stack
pub mod Pages
pub mod Tests
