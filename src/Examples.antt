-- ===== src/Examples.antt =====
-- The theorems at concrete inputs, and tests of the definitions.
mod Lifecycle
mod Lists
mod Polling
mod Interleavings
mod Sweeping
mod Documents
mod Values
mod Provider
mod Changes
