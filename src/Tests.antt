-- ===== src/Tests.antt =====
-- Runs of the theorems at concrete inputs.
pub mod Fixtures
mod Sending
mod Counting
mod Recovering
mod Refusing
mod Listing
mod Offerings
mod Enums
mod Delays
mod Walking
mod Failures
mod Hooks
mod Catalogs
mod Closing
mod Rotating
mod Patient
mod Moving
mod Weathering
