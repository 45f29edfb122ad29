-- ===== src/Viewer.antt =====
-- SVViewer (src/SVViewer): the program that shows the archive's files.
pub mod FileLoader
pub mod Database
