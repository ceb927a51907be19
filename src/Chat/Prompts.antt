-- ===== src/Chat/Prompts.antt =====
-- The system prompt with its context blocks (backend/app/application/prompts.py).
pub mod Budget
use atlas_knowledge.Common.{
  ℕ, zero, suc, ◌+◌, ◌-◌, ◌/◌, ◌%◌, List, [], ◌∷◌, ◌++◌, Option, none, some, ltb, if◌then◌else◌,
  length, is_empty, Text, codes, join,
}
use atlas_knowledge.Chat.Rows.{RetrievedChunk}

-- `str(n)` of a number; `n + 1` steps are more than it has digits.
unfoldable pub digits_from : ℕ → ℕ → Text
digits_from zero n = []
digits_from (suc fuel) n =
    let front = digits_from fuel (n / 10) in
    if ltb n 10 then (48 + n) ∷ [] else front ++ (48 + n % 10) ∷ []

unfoldable pub digits : ℕ → Text
digits n = digits_from (suc n) n

-- `_RAG_INSTRUCTION` and `_RAG_EMPTY`
pub rag_instruction : Text
rag_instruction =
    codes "僅依據下列資料回答使用者的問題;資料不足以回答時明白說出「提供的資料不足」,NEVER 自行編造或補充資料以外的內容。引用時在句末以 [n] 標註對應資料編號。"

pub rag_empty : Text
rag_empty = codes "(這次沒有檢索到相關資料)"

abbrev pub heading_line : Option (List Text) → Text
heading_line none = []
heading_line (some headings) = join (codes " > ") headings

-- `_render_block`
unfoldable pub render_block : RetrievedChunk → ℕ → Text
render_block c rank =
    let path = heading_line c.heading_path in
    let title = if is_empty path then c.filename else c.filename ++ (codes "｜" ++ path) in
    codes "[" ++ (digits rank ++ (codes "] " ++ (title ++ (codes "\n" ++ c.text))))

-- The loop of `rag_system_prompt` from one chunk on: the blocks and the chunks still to come,
-- with the room that remains and the number of chunks used before.
unfoldable pub fill : ℕ → ℕ → List RetrievedChunk → List Text × List RetrievedChunk
fill remaining used [] = ([], [])
fill remaining used (c ∷ cs) =
    let block = render_block c (used + 1) in
    let rest = fill (remaining - length block) (used + 1) cs in
    if ltb remaining (length block) then ([], []) else (block ∷ rest.0, c ∷ rest.1)

unfoldable pub context_of : List Text → Text
context_of [] = rag_empty
context_of (b ∷ bs) = join (codes "\n\n") (b ∷ bs)

-- `rag_system_prompt`
unfoldable pub rag_system_prompt : Text → List RetrievedChunk → ℕ → Text × List RetrievedChunk
rag_system_prompt base chunks char_budget =
    let filled = fill char_budget 0 chunks in
    (base ++ (codes "\n\n" ++ (rag_instruction ++ (codes "\n\n" ++ context_of filled.0))), filled.1)
