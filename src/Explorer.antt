-- ===== src/Explorer.antt =====
-- The file explorer's own state: its history, its panels, its listing and its pasting
pub mod History
pub mod PanelStack
pub mod GridMoves
pub mod Selection
mod Tests
