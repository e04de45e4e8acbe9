-- ===== src/Admin.antt =====
-- The pages and the API of the administrator, and what holds of them.
pub mod Secrets
pub mod Lists
pub mod Users
pub mod Api
pub mod Actions
pub mod SettingsForm
pub mod Pages
pub mod Once
pub mod Pagination
pub mod Barred
pub mod Refused
pub mod Deletion
pub mod ShutOut
pub mod Confirmed
pub mod Devices
pub mod Views
pub mod Trail
pub mod Browse
pub mod Vaults
pub mod Reads
pub mod Listings
