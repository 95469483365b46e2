-- ===== src/Sessions.antt =====
-- app/services/session_service.py: chat sessions and their messages.
pub mod Models
pub mod Scope
pub mod Messages
pub mod Orderly
pub mod Numbered
pub mod Again
pub mod Selected
pub mod Listed
pub mod Visible
pub mod Entries
pub mod Made
mod Examples
