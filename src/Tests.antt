-- ===== src/Tests.antt =====
-- The models run on small inputs, and the theorems applied to them.
mod Grouping
mod Lookup
mod Inputs
mod Directory
