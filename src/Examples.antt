-- ===== src/Examples.antt =====
-- The theorems at concrete inputs, and tests of the definitions.
mod Breakers
mod Registry
mod Queues
mod Files
mod Numbers
mod Merges
mod Appends
mod Workers
mod Exports
mod Frames
mod Profile
