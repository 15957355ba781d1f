-- ===== src/Tests.antt =====
-- Runs of the definitions on small inputs, and the properties at concrete inputs.
mod World
mod Cache
mod Ranges
mod Operations
mod Files
mod Base64
mod Requests
mod Reads
mod Posts
mod Protocol
mod Transfer
mod Conversation
mod Items
mod Memory
