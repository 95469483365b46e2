-- ===== src/Toc.antt =====
-- The table of contents of a PDF: pageindex/page_index.py. A call of the language model is an
-- argument, a function of what it is asked; what is written to a log is left out.
pub mod FindPages
pub mod PagesFound
pub mod Items
pub mod Offset
pub mod CommonOffset
pub mod Entries
pub mod Check
pub mod Fix
pub mod Meta
pub mod Each2
pub mod Frame
pub mod Bounded
pub mod Groups
pub mod GroupCover
pub mod Examples
