-- ===== src/Common.antt =====
-- packages/common/ancora_common: what the services share.
pub mod RateLimit
pub mod Resources
pub mod Registry
pub mod Inbox
pub mod Events
pub mod Catalog
pub mod Projections
