-- ===== src/Acquirer.antt =====
-- memslicer/acquirer: how the memory of a process comes into a slice.
pub mod RegionFilter
pub mod Bridge
pub mod Ranges
pub mod Reading
pub mod Engine
pub mod Threads
pub mod ElfNotes
pub mod Projections
pub mod Texts
pub mod Escaping
pub mod Collected
pub mod OsDetail
pub mod Collectors
mod Tests
