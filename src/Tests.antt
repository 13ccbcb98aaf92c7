-- ===== src/Tests.antt =====
-- Concrete runs of the development's definitions, a module per part of the program.
pub mod Data
pub mod Wire
pub mod Names
pub mod Receive
pub mod Reads
pub mod Changes
pub mod Lines
pub mod Serving
pub mod Commands
pub mod Sending
pub mod Answering
pub mod Starting
