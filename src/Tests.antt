-- ===== src/Tests.antt =====
-- The components at concrete inputs.
mod Scan
mod Buffer
mod Receive
mod Client
mod Archive
mod Registry
mod Update
mod Misc
mod Arduino
mod Trigger
mod Viewer
mod Logger
mod Graph
mod Web
mod Stat
mod Tcp
mod Export
mod Database
mod Script
