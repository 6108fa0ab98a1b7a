-- ===== src/Cmn.antt =====
-- workflows/CMNWorkflow.h and CMNWorkflow.cpp: an agent logs in, a customer asks for a call now.
pub mod State
pub mod Alive
pub mod Sequence
pub mod Call
pub mod Protocol
pub mod Obeys
