-- ===== src/Pdu/Registers.antt =====
-- pdu/registers.py: holding and input registers.
pub mod RequestFc3
pub mod ResponseFc3
pub mod RequestFc4
pub mod ResponseFc4
pub mod RequestFc6
pub mod ResponseFc6
pub mod RequestFc16
pub mod ResponseFc16
pub mod RequestFc22
pub mod ResponseFc22
pub mod RequestFc23
pub mod ResponseFc23
