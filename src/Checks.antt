-- ===== src/Checks.antt =====
-- Runs of the models on small inputs, and the theorems at inputs that meet their hypotheses.
mod Small
mod Storage
mod Files
mod Calls
mod Counts
mod Codes
mod Remote
mod Life
mod Refined
mod Fetched
mod Inodes
mod Wire
