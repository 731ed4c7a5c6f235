-- ===== src/Examples.antt =====
-- Concrete data, the theorems at it, and tests that compute.
mod Approvals
mod Policies
mod Calls
mod Limited
mod Sessions
mod Deletions
mod Constraints
mod Fresh
mod Log
mod Keys
