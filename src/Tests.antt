-- ===== src/Tests.antt =====
-- The properties at concrete inputs.
mod Breaker
mod Numbers
mod Slots
mod Collections
mod Requests
mod Observations
mod Matching
mod Accounts
mod Caching
mod Batches
mod Locations
mod Limits
