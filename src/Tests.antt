-- ===== src/Tests.antt =====
-- Concrete runs of the theorems, by part of the program.
mod Ring
mod Sums
mod Link
mod Tables
mod Copies
mod Streams
mod Files
