-- ===== src/Ingestion.antt =====
-- Documents from upload to retrieval: the tables, the three stages of the pipeline and their task
-- shells, and the document service (backend/app/application/ingestion_service.py and
-- document_service.py, backend/app/workers/tasks/ingest.py, the repositories that they use).
pub mod World
pub mod Stages
pub mod Rows
pub mod Transitions
pub mod Embedding
pub mod Tasks
pub mod Delivery
pub mod Rechunk
pub mod Retries
pub mod Uploads
mod Examples
