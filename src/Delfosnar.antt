-- ===== src/Delfosnar.antt =====
-- workflows/ManyWorkflow.h and ManyWorkflow.cpp: an agent logs in and holds a delfosnar, with a
-- presenter and a viewer.
pub mod State
pub mod Room
pub mod Sequence
pub mod Protocol
pub mod Obeys
pub mod Steps
pub mod Rooms
pub mod Runs
