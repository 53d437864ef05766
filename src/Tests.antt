-- ===== src/Tests.antt =====
-- The examples at which the theorems are applied.
mod Samples
mod Nodes
mod Reports
mod Gates
mod Conns
mod Checks
mod Loop
mod Kernels
mod Machines
mod Alone
