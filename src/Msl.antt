-- ===== src/Msl.antt =====
-- memslicer/msl: the file format.
pub mod Constants
pub mod Types
pub mod Host
pub mod Integrity
pub mod Compression
pub mod Encryption
pub mod Payload
pub mod Writer
pub mod Iterator
pub mod Slice
pub mod Tests
