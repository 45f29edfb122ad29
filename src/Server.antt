-- ===== src/Server.antt =====
-- SVServer (src/SVServer): what receives, buffers, keeps and archives the signals.
pub mod Config
pub mod Scan
pub mod Buffer
pub mod Registry
pub mod Archive
pub mod Update
pub mod Receive
pub mod Database
