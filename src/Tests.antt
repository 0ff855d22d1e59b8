-- ===== src/Tests.antt =====
-- Concrete runs of the model, and its theorems at concrete inputs.
mod Floats
mod Storage
mod Paging
mod Trees
mod Queries
mod Leaves
mod Joins
mod Tables
