-- ===== src/Nbd.antt =====
-- The private NBD server (src/platform/nbd_*.c): `Wire` is its message format, `Telemetry` its
-- counters, `Socket` the connection as the protocol sees it, `Session` the protocol, and `Export` what
-- a session does for a client of an image.
pub mod Token
pub mod Wire
pub mod Telemetry
pub mod Socket
pub mod Session
pub mod Export
