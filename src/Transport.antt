-- ===== src/Transport.antt =====
-- The transports: cutting frames out of a stream of bytes.
pub mod Rtu
pub mod Splitter
pub mod Fragmenter
pub mod Port
pub mod RtuStream
pub mod Socket
pub mod TcpStream
pub mod Buffered
pub mod SslContext
pub mod Tls
