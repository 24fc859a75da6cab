-- ===== src/Process.antt =====
-- main.go: the settings, the listener, and the life of the server.
pub mod Settings
pub mod Run
pub mod Configured
pub mod Served
