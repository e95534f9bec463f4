-- ===== src/Behavior.antt =====
-- memslicer/behavior: what the behaviour of a slice's code is recorded as.
pub mod Graph
pub mod Dataflow
pub mod Resolver
mod Tests
