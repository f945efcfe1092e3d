-- ===== src/Tests.antt =====
-- Concrete runs: a goal, a graph of two tasks and a store that holds them, at which the theorems apply.
mod Samples
mod Stores
mod Cycles
mod Registries
mod Tenants
mod Plans
mod Drives
mod Histories
mod Edits
mod Limits
