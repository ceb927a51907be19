-- ===== src/Chat.antt =====
-- The chat: one question and its streamed answer (backend/app/application/chat_orchestrator.py,
-- prompts.py and the repositories of conversations, messages, citations and usage).
pub mod Rows
pub mod Prompts
pub mod Turn
pub mod Saving
pub mod Stream
pub mod Titles
pub mod Conversations
pub mod Pages
pub mod Models
pub mod Examples
