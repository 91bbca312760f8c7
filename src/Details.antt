-- ===== src/Details.antt =====
-- The parts of a detail page that src/common.py reads: its fields, its items, the close window, the
-- summary and the calendar event.
pub mod Window
pub mod Groups
pub mod Instants
mod Fuel
pub mod Fields
pub mod Close
pub mod Resolved
pub mod Items
mod Parsed
pub mod Event
pub mod Stamps
pub mod Folder
mod Tests
