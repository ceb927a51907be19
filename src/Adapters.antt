-- ===== src/Adapters.antt =====
-- The adapters of the two OpenAI-compatible services (backend/app/infrastructure/llm,
-- backend/app/infrastructure/embedding).
pub mod Json
pub mod Http
pub mod Payloads
pub mod Completions
pub mod Embeddings
pub mod QueryCache
mod Examples
