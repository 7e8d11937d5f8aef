-- ===== src/Net.antt =====
-- ham/net: the buffer, the event channels and their poller, the connections, and the HTTP server.
pub mod Buffer
pub mod Http
pub mod Channel
pub mod TcpConnection
pub mod Connector
pub mod Timer
pub mod TimerQueue
pub mod Epoller
pub mod LoopPool
pub mod LoopThread
pub mod EventLoop
pub mod TcpServer
pub mod Sockets
pub mod Acceptor
pub mod TcpClient
mod Examples
