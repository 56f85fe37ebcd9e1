-- ===== src/Tests.antt =====
-- Concrete inputs at which the hypotheses of the theorems hold, and runs of the definitions.
mod Clocks
mod Ring
mod Members
mod Trees
mod Hints
mod Quorums
mod Copies
mod Transfers
mod Wires
mod Detectors
mod Swarms
mod Files
mod Gossips
mod Logs
mod Uploads
