-- ===== src/Library.antt =====
-- The package runtime/library.
pub mod Objects
pub mod Occ
pub mod FieldSelector
pub mod Pagination
pub mod Rest
pub mod PollWatch
pub mod Locker
pub mod Subresource
pub mod CrdStore
pub mod Samples
mod Tests
mod ReadTests
