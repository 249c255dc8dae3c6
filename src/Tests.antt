-- ===== src/Tests.antt =====
-- Runs of the model on concrete inputs, and each result that has a hypothesis, at such an input.
mod Samples
mod Frames
mod Messages
mod Relays
mod Connectors
mod Clis
mod Wirings
mod EndToEnds
mod Pairings
mod Interleavings
