-- ===== src/Tests.antt =====
-- Runs at concrete inputs, and the theorems at concrete data.
mod Visibility
mod Devices
mod Pings
mod Commands
mod Clients
mod Values
mod Files
mod Central
mod Events
mod Collector
mod Creation
mod Shown
mod Schedule
mod Climate
mod Lights
