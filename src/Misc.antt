-- ===== src/Misc.antt =====
-- SVMisc (src/SVMisc): the edge detector and the delay timers that the other parts share.
pub mod Front
pub mod SpinLock
pub mod TcpClient
pub mod TcpServer
pub mod Timer
pub mod Logger
