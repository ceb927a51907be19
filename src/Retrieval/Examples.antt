-- ===== src/Retrieval/Examples.antt =====
-- A document of one chunk beside a stranger's, and the statements about a search.
use atlas_knowledge.Common.{
  ◌≡◌, ◌↔◌, ◌≤◌, refl, ℕ, ◌<◌, true, false, List, [], ◌∷◌, none, some, length, All, Occurs, Text,
  codes, ok, err,
}
use atlas_knowledge.Documents.{text_draft}
use atlas_knowledge.Ingestion.World.{ready, Document, DocumentChunk, World}
use atlas_knowledge.Chat.Rows.{add_message, clashes}
use atlas_knowledge.Chat.Turn.{TurnContext, new_turn, prepare_turn, sources_owned, user_message}
use atlas_knowledge.Chat.Turn.Laws.{with_message}
use atlas_knowledge.Chat.Stream.{Reply, stream_reply, emit, message_start, answer}
use atlas_knowledge.Chat.Examples.{settings, conversation, db, request, services, storage}
use atlas_knowledge.Adapters.Embeddings.{malformed}
use atlas_knowledge.Retrieval.Tsquery.{build_tsquery, split_words}
use atlas_knowledge.Retrieval.Tsquery.Reading.{read_tsquery}
use atlas_knowledge.Retrieval.Tsquery.Tokens.{AllDifferent, build_tsquery_lem}
use atlas_knowledge.Retrieval.Index.{Engine, IndexSettings, hybrid_search}
use atlas_knowledge.Retrieval.Index.Scope.{MaySee, BringsNothing, RanksFrom, hybrid_search_lem}
use atlas_knowledge.Retrieval.Service.{Deps}
use atlas_knowledge.Retrieval.Service.Cited.{with_retrieval, CitesSeen, stream_reply-CitesSeen}

build_tsquery_lem_example :
    (tokens : List Text) × (read_tsquery (build_tsquery (codes "a law\" law")) ≡ some tokens)
    × AllDifferent tokens
    × ((t : Text)
        → Occurs t tokens ↔ (Occurs t (split_words (codes "a law\" law")) × (1 < length t)))
build_tsquery_lem_example = build_tsquery_lem (codes "a law\" law")

-- A document of the user with this number, in source 1.
abbrev document : ℕ → ℕ → Document
document i user_id = record {
  id = i;
  source_id = 1;
  uploaded_by = user_id;
  filename = codes "f";
  mime = [];
  size_bytes = 0;
  storage_key = [];
  checksum = [];
  status = ready;
  error = none;
}

abbrev chunk : ℕ → DocumentChunk
chunk i = record {
  id = i;
  document_id = i;
  seq = 0;
  text = codes "t";
  tokens = 1;
  meta = record { page = none; heading_path = none; block_type = text_draft };
  embedding = some 7;
  embedding_version = none;
}

abbrev tables : World
tables = record {
  documents = document 1 1 ∷ document 2 9 ∷ [];
  chunks = chunk 1 ∷ chunk 2 ∷ [];
  jobs = [];
  sources = record { id = 1; owner_id = 1; type = codes "upload"; enabled = true } ∷ [];
  files = [];
  queue = [];
}

abbrev engine : Engine
engine = record {
  by_distance = λ qvec cs. cs;
  matches = λ tsquery c. true;
  by_rank = λ tsquery cs. cs;
  scan = λ rows. rows;
  is_law = λ c. false;
  as_float = λ score. score.0;
}

brings_nothing : BringsNothing engine
brings_nothing = record {
  by_distance_from = λ qvec cs c o. o;
  by_rank_from = λ tsquery cs c o. o;
  scan_from = λ rows row o. o;
}

abbrev index : IndexSettings
index = record { top_k = 20; rrf_k = 60 }

hybrid_search_lem_example :
    All
      (λ hit. MaySee engine tables 1 [] hit.chunk_id)
      (hybrid_search engine index tables tables 1 none (codes "law") [] 3)
    × (length (hybrid_search engine index tables tables 1 none (codes "law") [] 3) ≤ 3)
    × RanksFrom 1 (hybrid_search engine index tables tables 1 none (codes "law") [] 3)
hybrid_search_lem_example =
    hybrid_search_lem engine index tables tables 1 none (codes "law") [] 3 brings_nothing

abbrev deps : Deps
deps = record {
  cut = λ text. text ∷ [];
  embed = λ texts. ok ((7 ∷ []) ∷ []);
  redis = record { entries = λ key. none; get_fails = false; set_fails = true };
  to_float = λ v. err malformed;
  loads = λ text. err malformed;
  dumps = λ vector. [];
  sha = λ query. query;
  version = codes "v";
  engine = engine;
  index = index;
  tables = tables;
  tables_later = tables;
  search_fails = false;
}

abbrev turn : TurnContext
turn = new_turn settings 10 11 request conversation (with_message (user_message 10 request) db)

abbrev reply : Reply
reply = emit (message_start turn.user_message_id turn.assistant_message_id) (
    answer (with_retrieval deps services storage request) storage request settings turn
      (with_message (user_message 10 request) db))

replied :
    stream_reply (with_retrieval deps services storage request) storage request settings 10 11 db
    ≡ ok reply
unfolding stream_reply prepare_turn sources_owned add_message clashes user_message
replied = refl

stream_reply-CitesSeen_example : CitesSeen deps services storage request reply
stream_reply-CitesSeen_example =
    stream_reply-CitesSeen deps services storage request brings_nothing settings 10 11 db replied
