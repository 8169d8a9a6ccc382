-- ===== src/Relay.antt =====
-- The relays: what they have in common, and a module for each class. A relay reports to its
-- RelayHandler (src/Handler.hxx); a call of the handler is a value.
pub mod Basic
pub mod Remote
pub mod Spawn
pub mod ExitStatus
pub mod Exec
pub mod RawExec
