-- ===== src/Tests.antt =====
-- Concrete inputs on which the theorems of the development apply.
mod Codec
mod Calls
mod Port
mod State
mod Transfer
mod Search
mod Programs
mod Resident
mod Setup
