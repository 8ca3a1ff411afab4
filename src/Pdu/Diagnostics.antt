-- ===== src/Pdu/Diagnostics.antt =====
-- pdu/diagnostics.py: the exception status and the diagnostics sub-functions.
pub mod SubFunctions
pub mod RequestFc7
pub mod ResponseFc7
pub mod RequestFc8
pub mod ResponseFc8
