-- ===== src/Tests.antt =====
-- The theorems at concrete inputs, and runs of the code on them.
mod Names
mod Agent
mod Replies
mod Mesh
mod Fallback
mod Requests
mod Settings
mod Proxies
mod Logs
mod Runs
mod Starts
mod Counters
