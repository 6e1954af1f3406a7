-- ===== src/Contracts/Examples.antt =====
-- The contracts at concrete tensor types.
mod Windows
mod Products
mod Layouts
mod Orders
mod Joins
mod Elements
mod Accepts
