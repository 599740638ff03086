-- ===== src/Dataset.antt =====
-- pkg/dataset: data sets, and those that are built from others.
pub mod Streams
pub mod Filter
pub mod Transform
pub mod Fuse
pub mod Pipe
mod Examples
pub mod Group
pub mod Reduce
pub mod Queue
pub mod Parallel
pub mod Ordered
