-- ===== src/Device.antt =====
-- Devices: how they are paired, how they prove who they are, and how they are revoked.
pub mod Auth
pub mod Credentials
pub mod Enroll
pub mod Manage
pub mod Revocation
pub mod Paired
pub mod Overview
pub mod Private
pub mod Forms
pub mod Own
pub mod Dashboard
