-- ===== src/Server.antt =====
-- internal/server: the wire entries that the read API and the live stream share, and the stream.
pub mod Presentation
pub mod Stream
pub mod Push
pub mod Gates
pub mod Read
pub mod Ingest
