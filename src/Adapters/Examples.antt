-- ===== src/Adapters/Examples.antt =====
-- A response of two lines, a service with two vectors, and the statements about them.
use atlas_knowledge.Common.{
  ap, err, starts_with, strip, text_eq, ◌++◌, ◌≡◌, refl, ℕ, true, false, List, [], ◌∷◌, Option,
  none, some, map, length, Text, codes, Outcome, ok,
}
use atlas_knowledge.Common.Sorting.{
  Inserted, Shuffled, empty, sorted_by, insert_by, one_more, here, further,
}
use atlas_knowledge.Chat.Rows.{ChatDb}
use atlas_knowledge.Chat.Saving.{persist_success}
use atlas_knowledge.Chat.Turn.Laws.{with_message}
use atlas_knowledge.Chat.Stream.Sent.{has_done}
use atlas_knowledge.Chat.Turn.{
  Request, TurnContext, new_turn, prepare_turn, sources_owned, user_message,
}
use atlas_knowledge.Chat.Rows.{add_message, clashes}
use atlas_knowledge.Chat.Stream.{
  Services, Reply, stream_reply, emit, message_start, answer, ask, relay, conclude,
}
use atlas_knowledge.Chat.Examples.{model, conversation, settings, db, request, services, storage}
use atlas_knowledge.Adapters.Json.{
  Json, subscript, num, str, arr, obj, nil, cons, end, field, Items, elements,
}
use atlas_knowledge.Adapters.Http.{service_url}
use atlas_knowledge.Adapters.Completions.{
  Sent, answered, RequestBody, chat, listen, stream, payload_of,
}
use atlas_knowledge.Adapters.Payloads.{
  read_payload, read_value, read_choices, content_events, reason_after, read_usage,
}
use atlas_knowledge.Adapters.Completions.Order.{KeepsContract, chat-KeepsContract}
use atlas_knowledge.Adapters.Completions.Replies.{
  served, IsAsked, AnswersWhole, stream_reply-HasWholeResponse,
}
use atlas_knowledge.Adapters.QueryCache.{Redis, read_entry, embed_query}
use atlas_knowledge.Adapters.QueryCache.Sound.{IsSound, embed_query_lem}
use atlas_knowledge.Adapters.Embeddings.{
  Failure, Trouble, malformed, EmbedRequest, Posted, post_batch, replied, Settings, embed,
  sorted_rows, vector_of, floats, sort_keyed, with_index, numbered, embed_from, embed_batch,
  check_vectors, read_vectors, vectors_of,
}
use atlas_knowledge.Adapters.Embeddings.Aligned.{IsAligned, embed-IsAligned}
use atlas_knowledge.Adapters.Embeddings.Served.{indexed, row_at, embed_lem, AnswersInSomeOrder}

-- {"choices": [{"delta": {"content": "Hi"}}]}
abbrev greeting : Json
greeting = obj (
    field (codes "choices")
      (arr (
        cons
          (obj (field (codes "delta") (obj (field (codes "content") (str (codes "Hi")) end)) end))
          nil))
      end)

abbrev loads : Text → Option Json
loads payload = some greeting

abbrev as_count : Json → Option ℕ
as_count v = none

abbrev post : Text → RequestBody → Sent
post url body = answered (record {
  status = 200;
  body = ok [];
  lines = codes "data: {}" ∷ codes "data: [DONE]" ∷ [];
  ends_by = none;
  close_fault = none;
})

chat-KeepsContract_example : KeepsContract (chat loads as_count post (codes "u") [] model)
chat-KeepsContract_example = chat-KeepsContract loads as_count post (codes "u") [] model

abbrev asking : Request
asking = record request { source_ids = none }

abbrev whole_services : Services
whole_services = served loads as_count post (codes "u") services storage asking

abbrev turn : TurnContext
turn = new_turn settings 10 11 asking conversation (with_message (user_message 10 asking) db)

abbrev asked : ChatDb
asked = with_message (user_message 10 asking) db

abbrev reply : Reply
reply = emit (message_start 10 11) (answer whole_services storage asking settings turn asked)

replied_to : stream_reply whole_services storage asking settings 10 11 db ≡ ok reply
unfolding stream_reply prepare_turn sources_owned add_message clashes user_message new_turn
replied_to = refl

reply_done : has_done reply.events ≡ true
unfolding answer new_turn ask chat service_url stream listen payload_of read_payload read_value
    read_choices content_events reason_after read_usage relay conclude persist_success starts_with
    strip text_eq
reply_done = refl

stream_reply-HasWholeResponse_example :
    (prepared : TurnContext) × (db' : ChatDb) × (t : TurnContext) × (prepare_turn settings 10 11
        asking db
      ≡ ok (prepared, db'))
    × IsAsked loads as_count post (codes "u") services storage asking settings prepared t
    × AnswersWhole loads as_count post (codes "u") services storage asking t
stream_reply-HasWholeResponse_example =
    stream_reply-HasWholeResponse loads as_count post (codes "u") services storage asking settings
      10 11 db replied_to reply_done

-- A service that puts the rows of a batch in reverse.
abbrev to_float : Json → Outcome Trouble ℕ
to_float (num n) = ok n
to_float _ = err malformed

abbrev sort_others : List (Json × Json) → Outcome Trouble (List Json)
sort_others keyed = err malformed

abbrev row : ℕ → Text → Json
row i t = obj (
    field (codes "index") (num i) (field (codes "embedding") (arr (cons (num (length t)) nil)) end))

abbrev backwards : List (ℕ × Text) → List (ℕ × Text)
backwards [] = []
backwards (p ∷ ps) = backwards ps ++ p ∷ []

abbrev as_items : List (ℕ × Text) → Items
as_items [] = nil
as_items ((i, t) ∷ ps) = cons (row i t) (as_items ps)

abbrev answer_of : List Text → Json
answer_of batch = obj (field (codes "data") (arr (as_items (backwards (indexed 0 batch)))) end)

abbrev server : ℕ → Text → EmbedRequest → Posted
server start url r = replied (record { status = 200; content = []; json = ok (answer_of r.input) })

abbrev embeddings : Settings
embeddings = record { base_url = codes "u/"; model = codes "m"; dim = 1; batch_size = 2 }

Inserted-last : {A : Type 0} (a : A) (xs : List A) → Inserted a xs (xs ++ a ∷ [])
Inserted-last a [] = here
Inserted-last a (x ∷ xs) = further (Inserted-last a xs)

backwards-Shuffled : (ps : List (ℕ × Text)) → Shuffled ps (backwards ps)
backwards-Shuffled [] = empty
backwards-Shuffled (p ∷ ps) = one_more (backwards-Shuffled ps) (Inserted-last p (backwards ps))

vector : Text → List ℕ
vector t = length t ∷ []

row_index : (i : ℕ) (t : Text) → subscript (row i t) (codes "index") ≡ some (num i)
unfolding text_eq
row_index i t = refl

row_vector : (i : ℕ) (t : Text) → vector_of to_float (row i t) ≡ ok (vector t)
unfolding vector_of floats text_eq vector
row_vector i t = refl

elements_of :
    (ps : List (ℕ × Text))
    → elements (as_items ps) ≡ map (row_at to_float sort_others row vector row_index row_vector) ps
elements_of [] = refl
elements_of ((i, t) ∷ ps) = ap (λ rows. row i t ∷ rows) (elements_of ps)

one_float : (t : Text) → length (vector t) ≡ 1
unfolding vector
one_float t = refl

served_backwards :
    (start : ℕ) (batch : List Text)
    → AnswersInSomeOrder to_float sort_others row vector row_index row_vector batch
        (post_batch embeddings server start batch)
unfolding text_eq
served_backwards start batch = (
  record { status = 200; content = []; json = ok (answer_of batch) },
  backwards (indexed 0 batch),
  answer_of batch,
  arr (as_items (backwards (indexed 0 batch))),
  refl,
  refl,
  refl,
  refl,
  ap some (elements_of (backwards (indexed 0 batch))),
  backwards-Shuffled (indexed 0 batch),
)

embedded :
    embed to_float sort_others embeddings server (codes "a" ∷ codes "bc" ∷ codes "d" ∷ [])
    ≡ ok ((1 ∷ []) ∷ (2 ∷ []) ∷ (1 ∷ []) ∷ [])
unfolding embed embed_from embed_batch check_vectors read_vectors sorted_rows sort_keyed with_index
    numbered vectors_of vector_of floats text_eq service_url sorted_by insert_by
embedded = refl

embed-IsAligned_example : IsAligned to_float sort_others 1 3 ((1 ∷ []) ∷ (2 ∷ []) ∷ (1 ∷ []) ∷ [])
embed-IsAligned_example =
    embed-IsAligned to_float sort_others embeddings server (codes "a" ∷ codes "bc" ∷ codes "d" ∷ [])
      embedded

embed_lem_example :
    embed to_float sort_others embeddings server (codes "a" ∷ codes "bc" ∷ codes "d" ∷ [])
    ≡ ok (map vector (codes "a" ∷ codes "bc" ∷ codes "d" ∷ []))
embed_lem_example =
    embed_lem to_float sort_others embeddings server row vector row_index row_vector one_float
      served_backwards (codes "a" ∷ codes "bc" ∷ codes "d" ∷ [])

-- An empty store, vectors that are their own texts, and texts that are their own digests.
abbrev cold : Redis
cold = record { entries = λ key. none; get_fails = false; set_fails = false }

abbrev numbers : List ℕ → Items
numbers [] = nil
numbers (n ∷ ns) = cons (num n) (numbers ns)

abbrev load_vector : Text → Outcome Trouble Json
load_vector s = ok (arr (numbers s))

abbrev dump_vector : List ℕ → Text
dump_vector v = v

abbrev digest : Text → Text
digest query = query

abbrev provider : List Text → Outcome Failure (List (List ℕ))
provider texts = ok (map vector texts)

floats_of : (v : List ℕ) → floats to_float (elements (numbers v)) ≡ ok v
unfolding floats
floats_of [] = refl
floats_of (n ∷ v) = simp (floats_of v) refl

reads_back :
    (v : List ℕ)
    → read_entry to_float load_vector dump_vector digest (codes "v") (dump_vector v) ≡ ok (some v)
unfolding read_entry
reads_back v = rw (floats_of v) refl

embed_query_lem_example :
    ((embed_query to_float load_vector dump_vector digest (codes "v") provider cold (codes "why")).0
      ≡ ok (vector (codes "why")))
    × IsSound to_float load_vector dump_vector digest
        (codes "v")
        vector
        provider
        (embed_query to_float load_vector dump_vector digest
          (codes "v")
          provider
          cold
          (codes "why")).1
embed_query_lem_example =
    embed_query_lem to_float load_vector dump_vector digest (codes "v") vector provider reads_back
      (λ p q e. e) (λ query. refl) cold (codes "why") (λ query raw h. cc)
