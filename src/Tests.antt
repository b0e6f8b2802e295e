-- ===== src/Tests.antt =====
-- Runs of the modelled functions on small inputs.
mod Samples
mod Queues
mod Tables
mod Lines
mod Wire
mod Books
mod Process
mod Layers
mod Files
mod Fifo
mod Runs
mod Chains
mod Starts
