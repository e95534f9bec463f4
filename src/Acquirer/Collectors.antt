-- ===== src/Acquirer/Collectors.antt =====
-- memslicer/acquirer/collectors: what is read of the system beside the process.
pub mod Environ
pub mod Addresses
pub mod Connectivity
pub mod Counters
