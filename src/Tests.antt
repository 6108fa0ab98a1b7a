-- ===== src/Tests.antt =====
-- The theorems at concrete inputs, and runs of the code.
mod Demo
mod Unfolds
mod Basics
mod Cmn
mod Agents
mod Incoming
mod Desks
mod Waiting
mod Launches
mod Dumps
mod Clis
