-- ===== src/Bdos.antt =====
-- The file server: `NetBDOS` of sw/spyvspy/spybdos.h. `State` has its state and the helpers, `Drive`,
-- `Read`, `Write` and `Find` the functions of one kind, `Exec` the dispatch.
pub mod State
pub mod Drive
pub mod Read
pub mod Write
pub mod Find
pub mod Exec
pub mod Position
pub mod Sequential
pub mod Scan
pub mod Store
pub mod Emit
pub mod Changed
pub mod Spares
pub mod Change
pub mod Random
pub mod WriteRead
pub mod Suite
