-- ===== src/Payload.antt =====
-- The payloads of EDU-CTRL frames (looktech_glasses_sdk/protocol.py): replies and events.
pub mod Codes
pub mod Caps
pub mod Capture
pub mod Event
pub mod Reply
mod Tests
