-- ===== src/Ota.antt =====
-- The over-the-air update: looktech_glasses_sdk/ota_client.py.
pub mod Packet
pub mod Image
pub mod Reply
pub mod Client
pub mod Upgrade
pub mod Link
mod Tests
