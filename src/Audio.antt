-- ===== src/Audio.antt =====
-- The EDU-AUDIO channel (looktech_glasses_sdk/audio_client.py): from packages to a file.
pub mod Package
pub mod Sink
pub mod Recorder
mod Tests
