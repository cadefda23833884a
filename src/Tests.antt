-- ===== src/Tests.antt =====
-- The theorems of the other modules, applied to concrete states of the kernel.
mod Processes
mod Clock
mod Descriptors
mod Signals
mod Zones
mod Memory
mod Pipes
mod Printing
mod Blocks
mod FileBytes
mod Names
mod Heap
mod Inodes
mod Walks
mod Programs
