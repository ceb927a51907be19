-- ===== src/Parsing.antt =====
-- The parsers of the repository's own formats, and the rules that all parsers share
-- (backend/app/infrastructure/parsing: blocks.py, text.py and registry.py).
pub mod Normal
pub mod Blocks
pub mod Plain
pub mod Registry
mod Examples
