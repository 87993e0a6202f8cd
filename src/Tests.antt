-- ===== src/Tests.antt =====
-- Runs of the code at concrete inputs, and one use of each theorem.
pub mod Data
pub mod Config
pub mod Measurements
pub mod Workers
pub mod Answers
pub mod Arrays
pub mod Loading
pub mod Requests
