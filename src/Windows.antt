-- ===== src/Windows.antt =====
-- windows: the guest driver xenv4v of the Windows guest, and its copy of the ring's header.
pub mod Offset
pub mod Csq
pub mod Machine
pub mod Writes
pub mod Reads
pub mod Syn
pub mod Rings
pub mod Accepts
mod Tests
