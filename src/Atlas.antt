-- ===== src/Atlas.antt =====
-- Package atlas: how results are fetched, streamed and handed to the measurements.
pub mod Backoff
pub mod CacheTask
pub mod Lookup
pub mod Metrics
pub mod Request
pub mod Stream
pub mod Types
pub mod Worker
