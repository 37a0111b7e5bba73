-- ===== src/Scheduler.antt =====
-- services/scheduler: the governors of admission, one module each, and the engine that asks them.
pub mod Backlog
pub mod Fairness
pub mod Budget
pub mod Config
pub mod ConfigStore
pub mod Admission
pub mod Engine
pub mod Client
