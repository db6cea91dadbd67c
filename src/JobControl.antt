-- ===== src/JobControl.antt =====
-- internal/jobcontrol: maintenance jobs over the table of torrents, which run page by page, keep their
-- progress, and share one slot.
pub mod Batch
pub mod Tracker
pub mod Resume
mod Examples
