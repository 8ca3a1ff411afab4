-- ===== src/Pdu/Sizes.antt =====
-- `expected_size` of the PDU classes.
pub mod Stable
pub mod Serialized
