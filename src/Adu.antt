-- ===== src/Adu.antt =====
-- The ADUs: a PDU with what the serial line or TCP puts around it.
pub mod Crc
pub mod Rtu
pub mod Header
pub mod Tcp
