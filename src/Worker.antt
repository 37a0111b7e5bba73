-- ===== src/Worker.antt =====
-- services/activity-workers: the activity that runs a node.
pub mod Nodes
