-- ===== src/HomeAssistant.antt =====
-- The directory provider/homeassistant: the provider and the verifier over Home Assistant's REST
-- interface. An entity's identity is the bytes of the Go string.
pub mod Translator
pub mod Client
pub mod Provider
pub mod Verifier
pub mod Bounds
pub mod Bindings
pub mod Requests
pub mod Selection
pub mod Verdict
pub mod Freshness
pub mod Telling
pub mod Dispatching
pub mod Setup
