-- ===== src/Lib.antt =====
-- The Atlas Knowledge backend: a chat service with accounts, a document pipeline and answers with
-- citations. Requests reach four services (backend/app/application); tables, parsers and providers
-- stand behind their ports (backend/app/infrastructure, backend/app/domain). A document that is
-- uploaded waits for three background stages, which parse, chunk and embed it; a question is
-- stored, answered with the chunks that the retrieval finds, and the answer is streamed and
-- stored.
--
-- Common: Boolean tests, lists, texts as code points, results. Python's `str` is a list of
--   numbers.
-- Errors: `AppError`, `handle` for the three handlers (backend/app/core/errors.py).
-- Auth: `register`, `login`, `refresh`, `logout` of auth_service.py over the tables `users` and
--   `refresh_tokens` (Auth/Tables, Auth/Service). `rotate` and `replayed` are the two ends of
--   `refresh`. Auth/Steps has the histories of calls, Auth/Rotation and Auth/Replay the life of a
--   token.
-- Documents: blocks, drafts and the chunking configuration (backend/app/domain).
-- Chunking: tokens.py, table_row.py and default_recursive.py of
--   backend/app/infrastructure/parsing/chunking; `chunk` is `DefaultRecursiveChunking.chunk`, and
--   the record `Builder` is the state of `_Builder`.
-- Ingestion: the tables (World), the stages of ingestion_service.py (Stages, Embedding), the task
--   shells of backend/app/workers/tasks/ingest.py (Tasks), and document_service.py (Uploads).
-- Chat: the rows (Rows), prompts.py (Prompts), and chat_orchestrator.py: `prepare_turn` is TXN A
--   (Turn), the `persist` functions are TXN B (Saving), `stream_reply` is the generator (Stream).
--   Conversations and Pages are conversation_service.py, Models is
--   backend/app/core/model_registry.py, Titles the task of backend/app/workers/tasks/titles.py.
-- Adapters: the clients of the two model services. Completions is `chat` of
--   backend/app/infrastructure/llm/openai_compat.py, with one value of its stream in Payloads;
--   Embeddings is `embed` of backend/app/infrastructure/embedding/openai_compat.py, QueryCache the
--   cache beside it. Json has the values of `json.loads`, Http the faults of an exchange.
-- Storage: backend/app/infrastructure/storage/local_fs.py over a disk of files and directories,
--   with the task that purges a document.
-- Parsing: blocks.py (Normal, Blocks), text.py (Plain) and registry.py (Registry) of
--   backend/app/infrastructure/parsing; `finalize_document` are the rules that all parsers share.
-- Retrieval: Tsquery is tokenizer.py and `build_tsquery`, Index is `hybrid_search` of
--   backend/app/infrastructure/vector/pgvector_index.py, with one function for each part of its
--   statements, and Service is `retrieve` of backend/app/application/retrieval_service.py.
-- Paging: backend/app/core/pagination.py with the `list_page` queries; `walk` is a client's loop.
--
-- State is passed explicitly, and a method returns its result with the tables that it commits. An
-- exception is a value, and a transaction that raises stores nothing. Other sessions act between
-- two statements of a call where a function is an argument for it (`other`, `other_source`, `other_lookup`);
-- elsewhere each call commits before the next one starts.
--
-- Parameters: argon2, SHA-256, JWT, clocks and ids; parsers of other formats, decoders, the JSON
-- codec, the responses of the embedding and language services, jieba, the orders of PostgreSQL and
-- pgvector, Redis; path and lower-case functions; whether storage, queue and database raise.
--
-- Fuel: `split_to_limit` takes the length of the text, and each half is shorter than the whole;
-- `embed_loop` takes one more than the number of chunks without a vector, which every round
-- lowers; `digits` takes one more than the number; `embed_from` the number of texts, and every
-- batch takes one of them at least. All but `digits` are proved to be enough.
--
-- Not modelled: HTTP routers, wiring and logging, the parsers of PDF, DOCX and HTML, the calls
-- of Celery, migrations, scripts, the browser client. A lookup by a unique column is the first row
-- that matches. Columns that nothing modelled reads are left out.
pub mod Common
pub mod Errors
pub mod Auth
pub mod Documents
pub mod Ingestion
pub mod Chunking
pub mod Paging
pub mod Chat
pub mod Adapters
pub mod Retrieval
pub mod Parsing
pub mod Storage
