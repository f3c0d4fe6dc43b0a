-- ===== src/Tests.antt =====
-- Concrete runs: the theorems at inputs where their hypotheses hold.
mod Strings
mod Parts
mod Txs
mod Blocks
mod Containers
mod Scripts
mod Engine
mod Digests
mod Spending
