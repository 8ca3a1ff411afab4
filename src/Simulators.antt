-- ===== src/Simulators.antt =====
-- The simulators: a client and a server over the PDU classes, the TCP frames and the TCP stream.
pub mod Factory
pub mod Client
pub mod Responses
pub mod Server
pub mod Connections
pub mod Exchange
