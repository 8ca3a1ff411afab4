-- ===== src/Pdu/Bits.antt =====
-- pdu/bits.py: coils and discrete inputs.
pub mod RequestFc1
pub mod ResponseFc1
pub mod RequestFc2
pub mod ResponseFc2
pub mod RequestFc5
pub mod ResponseFc5
pub mod RequestFc15
pub mod ResponseFc15
