-- ===== src/Throttle.antt =====
-- The throttle of the gateway: extensions/exposition/source/directives/io/lib/throttle. `Keys` says
-- what a request is metered under, and `Quotas` meters it.
pub mod Keys
pub mod Quotas
pub mod Sync
