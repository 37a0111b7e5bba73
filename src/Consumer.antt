-- ===== src/Consumer.antt =====
-- services/event-consumer/ancora_event_consumer: the loops that keep the read model up to date.
pub mod Projector
pub mod Reconciler
