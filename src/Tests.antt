-- ===== src/Tests.antt =====
-- Concrete inputs for the modules of this library: the theorems applied at them, and runs.
mod Clusters
mod Servers
mod Followers
mod Votes
mod Logs
mod Steps
mod Services
mod Wire
mod Routing
mod Download
