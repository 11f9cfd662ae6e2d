-- ===== src/Tests.antt =====
-- The theorems at concrete inputs, and the instance at which they are taken.
pub mod Gin
pub mod Tally
pub mod Total
pub mod Bank
pub mod Cors
pub mod Startup
pub mod Store
pub mod Stamps
pub mod Tokens
pub mod History
pub mod Service
pub mod Api
pub mod Http
pub mod ReadBack
