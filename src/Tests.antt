-- ===== src/Tests.antt =====
-- Tests of the definitions on concrete inputs, and the theorems at inputs that meet their conditions.
mod Review
mod Logs
mod Client
mod Delivery
mod Mcp
mod Daemon
mod Keys
mod Render
mod Store
mod Reanchoring
mod Patch
