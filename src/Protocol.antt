-- ===== src/Protocol.antt =====
-- shared/protocol: the binary DATA frame, the control messages and the events.
pub mod Frame
pub mod Control
pub mod Event
