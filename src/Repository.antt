-- ===== src/Repository.antt =====
-- internal/repository: the SQL of each query as a function on the tables, and the mapping of its
-- errors. The proofs are in the child modules.
pub mod Users
pub mod Notifications
pub mod Integrity
pub mod Writes
pub mod Listing
