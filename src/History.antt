-- ===== src/History.antt =====
-- src/message_history.rs: conversations and messages. The reads and the maintenance of
-- conversations are in the children; this file has what stores a message.
pub mod Inbox
pub mod Pages
pub mod Deletion
pub mod Types
pub mod Statements
pub mod Store
pub mod Manage
pub mod Read
pub mod Consistent
pub mod Calls
pub mod Opened
pub mod Unread
pub mod RoundTrip
