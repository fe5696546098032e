-- ===== src/Tests.antt =====
-- Concrete runs of the program, and the theorems at them.
mod Data
mod Domain
mod Stages
mod Uploads
mod Runs
mod Repeats
mod Stores
mod Pages
mod Provider
mod Schemas
mod Exports
mod Hindered
