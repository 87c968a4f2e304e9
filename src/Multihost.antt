-- ===== src/Multihost.antt =====
-- The package runtime/library/multihost.
pub mod MetaStore
pub mod Lock
pub mod Ref
pub mod BodyStore
pub mod Signature
pub mod Encoding
pub mod Hub
pub mod MetaCache
pub mod Rest
mod Tests
mod WatchTests
mod RestTests
