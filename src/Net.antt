-- ===== src/Net.antt =====
-- src/net: the network modules.
pub mod RtpPort
pub mod TcpSession
pub mod Socket
pub mod TcpClient
pub mod TcpServer
pub mod UdpClient
