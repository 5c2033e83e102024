-- ===== src/Tests.antt =====
-- Tests at concrete inputs, and the witnesses of the theorems.
mod Samples
mod Prefixes
mod Streams
mod Packets
mod Rules
mod Maps
mod Reloads
mod Backends
mod Daemons
mod Configs
mod Kernels
mod Attachments
