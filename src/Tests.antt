-- ===== src/Tests.antt =====
-- The theorems at concrete inputs, by component.
mod Session
mod Terminal
mod TerminalView
mod TerminalTenant
mod Scripts
mod ScriptStore
mod Runs
mod Devices
mod DeviceLoads
mod Shell
mod Admin
