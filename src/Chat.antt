-- ===== src/Chat.antt =====
-- Chat completions on top of the responses protocol (internal/codexonly/chat_completions.go).
pub mod Stops
pub mod Json
pub mod Completion
pub mod Events
pub mod Terminal
pub mod Apply
pub mod Calls
pub mod Content
pub mod Stream
