-- ===== src/Stream/Refine.antt =====
-- On a valid stream ring each operation of stream.c is the operation of the bounded queue.
pub mod Simulation
pub mod Commit
pub mod Release
pub mod Run
pub mod Init
