-- ===== src/Tests.antt =====
-- Runs of the definitions on fixed inputs, and the theorems at fixed inputs.
mod Fixture
mod Keys
mod Headers
mod Handler
mod Registry
mod Bucket
mod Instances
mod Warm
mod Process
mod Reqlog
mod Tokens
