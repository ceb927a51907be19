-- ===== src/Retrieval.antt =====
-- The hybrid retrieval (backend/app/application/retrieval_service.py,
-- backend/app/infrastructure/vector, and the cache of
-- backend/app/infrastructure/embedding/cache.py).
pub mod Tsquery
pub mod Index
pub mod Service
mod Examples
