-- ===== src/Voice.antt =====
-- The voice agent integration: backend/src/voice.
pub mod Rules
pub mod CallCallback
pub mod VoiceCallbacks
pub mod RingioAdapter
pub mod Artifacts
pub mod Guards
pub mod VoiceDispatcher
