-- ===== src/Examples.antt =====
-- The theorems applied to concrete inputs.
mod Store
mod Data
mod Jobs
mod Runs
mod Scoring
mod Review
mod Accounts
mod Traffic
mod Limits
mod Reading
mod Table
mod Live
