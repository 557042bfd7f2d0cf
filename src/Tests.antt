-- ===== src/Tests.antt =====
-- Runs of the development on concrete services, users and rows.
mod Codec
mod Fixture
mod Addresses
mod Rows
mod Deliveries
mod Sessions
mod Histories
mod Requests
