-- ===== src/Tests.antt =====
-- Concrete runs: each theorem of the header's list at an input that meets its conditions.
mod Data
mod Codes
mod RunHotp
mod RunTotp
mod Samples
mod Stores
mod Formats
mod Front
mod Concurrent
mod Contexts
mod Requests
