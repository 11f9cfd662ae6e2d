-- ===== src/Api.antt =====
-- The package internal/api: what the handlers read from a request and write to a reply, and the
-- handlers themselves.
pub mod Json
pub mod Amount
pub mod Reply
pub mod Auth
pub mod Handling
pub mod Users
pub mod Accounts
pub mod Movements
pub mod Listing
pub mod Router
pub mod Wire
pub mod Kept
pub mod Answered
pub mod Ensured
pub mod Disclosed
pub mod Shown
pub mod Confidential
pub mod Callers
pub mod ReadBack
pub mod Reading
pub mod Preserved
pub mod Requests
pub mod Denied
pub mod Admission
pub mod TokenLaws
pub mod Tokens
pub mod Spending
