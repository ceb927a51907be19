-- ===== src/Chunking.antt =====
-- Cutting a parsed document into chunks (backend/app/infrastructure/parsing/chunking/).
pub mod Tokens
pub mod Split
pub mod Tail
pub mod Table
pub mod Builder
mod Examples
