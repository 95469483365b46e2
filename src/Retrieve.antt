-- ===== src/Retrieve.antt =====
-- Retrieval of a document's pages (pageindex/retrieve.py).
pub mod Numbers
pub mod Pages
pub mod Sorted
pub mod Named
pub mod Parsed
pub mod Documents
pub mod Lines
pub mod Selected
pub mod Content
mod Examples
