-- ===== src/Workflow.antt =====
-- workflows/Workflow.h and Workflow.cpp: the state that all workflows share, with what a run leaves
-- behind, and the operations that the derived classes call.
pub mod Construct
pub mod Sets
pub mod State
pub mod Traces
pub mod Buckets
pub mod Calls
pub mod Schedule
pub mod Run
pub mod Rules
pub mod Traced
pub mod AliveRules
