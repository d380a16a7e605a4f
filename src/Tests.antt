-- ===== src/Tests.antt =====
-- Tests on concrete inputs, and each theorem at an input where its hypotheses hold.
mod Parsing
mod Sessions
mod Buffers
mod Summaries
mod Outputs
mod Stores
mod Disks
mod Deliveries
mod Upstreams
mod Configs
mod Configures
mod Rewriters
mod Listens
mod Runs
mod Mains
mod Replies
