-- ===== src/Examples.antt =====
-- Runs of the model on frames of the Modbus documents, and the theorems at those inputs.
pub mod Data
mod Pdus
mod Adus
mod Streams
mod Tcp
mod Simulations
mod Lines
mod Tls
mod Connections
