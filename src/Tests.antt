-- ===== src/Tests.antt =====
-- Runs of the definitions at small inputs, and instances of the theorems.
mod Params
mod Nodes
mod Stores
mod Serials
mod Optimizers
mod Pipelines
mod Fusions
mod Sessions
mod Views
