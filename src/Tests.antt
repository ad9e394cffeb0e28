-- ===== src/Tests.antt =====
-- Runs of the definitions on concrete inputs, and one use of each theorem that has hypotheses.
mod Wire
mod Switch
mod Exchanges
mod Routes
mod Chip
mod Books
mod Orders
mod Delivery
mod Upgrades
mod Operator
