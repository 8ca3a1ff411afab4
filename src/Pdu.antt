-- ===== src/Pdu.antt =====
-- The protocol data units: pdu/common.py, and one module for each function-code class.
pub mod Common
pub mod Codec
pub mod Generic
pub mod Error
pub mod Bits
pub mod Registers
pub mod Diagnostics
pub mod Encapsulated
pub mod Packet
pub mod Classes
pub mod Parser
pub mod Positive
pub mod Total
pub mod RoundTrip
pub mod Registry
pub mod Dispatch
pub mod Sizes
pub mod Lossless
pub mod Default
