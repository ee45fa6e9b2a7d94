-- ===== src/Tests.antt =====
-- Every property applied at a concrete input.
mod Presentation
mod Geofence
mod Ledger
mod Dispatcher
mod Stream
mod Db
mod Registration
mod Log
mod States
mod Config
mod Provision
mod Ingest
mod Credentials
mod Reads
mod Places
mod Vulngate
mod Senders
