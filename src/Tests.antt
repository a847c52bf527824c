-- ===== src/Tests.antt =====
-- The theorems at concrete inputs.
mod Utilities
mod Objects
mod HistoryFile
mod Tiles
mod System
mod Endpoints
mod Nodes
mod Communication
mod Devices
