-- ===== src/Cache.antt =====
-- The versioned cache of ticket lists and the cached dashboard statistics:
-- app/services/cache_service.py and the endpoints that read through it.
pub mod Libraries
pub mod Keys
pub mod Service
pub mod Scope
pub mod Coherence
pub mod Freshness
pub mod Invalidation
pub mod Table
mod Tests
