-- ===== src/Policy.antt =====
-- Choices that the program makes by pure functions.
pub mod Transport
pub mod Slices
pub mod Surface
pub mod Modifier
mod Examples
