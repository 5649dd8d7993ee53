-- ===== src/App.antt =====
-- src/app: the cluster and the event stream.
pub mod Cluster
pub mod Events
pub mod Startup
pub mod Text
