-- ===== src/Sdk.antt =====
-- packages/sdk-python/ancora: the workflow author's side.
pub mod Policy
