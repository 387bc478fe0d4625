-- ===== src/Tests.antt =====
-- The theorems at concrete inputs.
mod Fetches
mod Keys
mod Notes
mod Sockets
mod Hosts
mod Tables
mod Streams
mod Agents
mod ToolCalls
mod Records
mod Readings
mod Api
