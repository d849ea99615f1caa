-- ===== src/Tests.antt =====
-- The theorems applied to concrete programs, databases and configurations.
mod Callbacks
mod Broker
mod Files
mod Loops
mod Hashes
mod Pool
mod Certificates
mod Messages
mod Names
mod Migration
mod Settings
mod Tables
mod Web
mod App
mod Cells
mod Colours
mod Clients
