-- ===== src/Tests.antt =====
-- Runs at concrete inputs, and the theorems at inputs that meet their conditions.
mod Fixtures
mod Sync
mod Access
mod Storage
mod Admin
mod Start
mod Lists
mod Pairing
