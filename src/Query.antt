-- ===== src/Query.antt =====
-- What a request asks of a storage: runtime/core/source/query. `Property` finds what an entity
-- declares for a name, and `Options` reads the sorting and the projection.
pub mod Property
pub mod Options
pub mod Criteria
pub mod Cache
pub mod Parse
mod Tests
