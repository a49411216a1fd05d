-- ===== src/System.antt =====
-- The application as a whole: requests and polls as steps on the tables and Redis.
pub mod Changes
pub mod Keys
pub mod Valid
pub mod Keeps
pub mod Requests
pub mod Batch
pub mod Moves
pub mod Starts
pub mod Closes
pub mod Growth
pub mod Reads
pub mod Steps
pub mod Overlap
