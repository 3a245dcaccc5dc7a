-- ===== src/Control.antt =====
-- cli/src/daemon/control-server.ts: the control socket as the lock of a single daemon.
pub mod Socket
pub mod Instances
