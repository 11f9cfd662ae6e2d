-- ===== src/Sqlc.antt =====
-- The package postgres/sqlc: its row types, its queries, and the tables that they read and write.
pub mod Models
pub mod Tables
pub mod Migrations
pub mod Accounts
pub mod Entries
pub mod Users
pub mod Inversion
pub mod Balances
pub mod Lookup
pub mod Calm
pub mod Runs
pub mod Listing
