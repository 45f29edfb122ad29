-- ===== src/Graph.antt =====
-- The graph panel (src/SVGraphPanel/src/graph_widget.cpp): which records of a signal's buffer are
-- shown, and what is made of them.
pub mod Window
pub mod Points
