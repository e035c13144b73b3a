-- ===== src/Tests.antt =====
-- Runs of the code on small inputs, and the theorems at such inputs.
mod Transfer
mod Network
mod Secure
mod Control
mod Tracing
mod Sessions
mod Shutdown
mod Query
mod Hooks
mod Certificates
mod Import
mod System
mod Wire
mod Endings
