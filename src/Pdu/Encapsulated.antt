-- ===== src/Pdu/Encapsulated.antt =====
-- pdu/encapsulated.py: the encapsulated interface.
pub mod RequestFc43
pub mod ResponseFc43
