-- ===== src/Session.antt =====
-- The session engine of the codec broker: src/video_bridge/src/session_engine.c. World is what it
-- calls, State its data, and a module holds each group of handlers.
pub mod World
pub mod State
pub mod Handled
pub mod Create
pub mod Input
pub mod Ahb
pub mod Ingress
pub mod Output
pub mod Engine
pub mod Ids
pub mod Valid
pub mod Others
pub mod Steps
pub mod Cycle
pub mod Identity
pub mod Unique
pub mod Handshake
pub mod Flights
pub mod Pairing
pub mod Examples
