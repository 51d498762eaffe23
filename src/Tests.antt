-- ===== src/Tests.antt =====
-- Runs of the model on concrete inputs.
mod Rings
mod Texts
mod Routes
mod Serving
mod Configs
mod Dispatches
mod Disks
mod Rotations
mod Systems
mod Whitelists
mod Locks
mod Documents
mod Threads
