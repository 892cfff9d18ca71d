-- ===== src/Examples.antt =====
-- Concrete runs of the program: a record and its slot, a bundle and its fees, gas and waits.
mod Records
mod Walks
mod Treasuries
mod Slots
mod Gas
mod Fees
mod Bundles
mod TopUps
mod Batches
