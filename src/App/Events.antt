-- ===== src/App/Events.antt =====
-- src/app/include/event_stream_process.h: the events that come in over UDP.
pub mod Ring
pub mod Sender
pub mod Datagram
