-- ===== src/Mathx.antt =====
-- pkg/mathx: vectors, distance functions, and the Distancer interface.
pub mod Distf
pub mod SafeVec
