-- ===== src/Knnc.antt =====
-- pkg/knnc: search spaces, stages and the pipeline.
pub mod Items
pub mod Workers
pub mod SearchSpace
pub mod SearchSpaces
pub mod Stages
pub mod Pipeline
pub mod Syncx
