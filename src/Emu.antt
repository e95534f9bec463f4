-- ===== src/Emu.antt =====
-- memslicer/emu: what loads a slice for emulation, and the emulator.
pub mod Loader
pub mod Spans
pub mod Unicorn
pub mod Engine
mod Tests
