-- ===== src/Storage/Examples.antt =====
-- A machine whose storage is the directory /data.
use atlas_knowledge.Common.{
  ◌⊎◌, Bool, true, false, ◌||◌, [], ◌∷◌, none, some, if◌then◌else◌, ◌≡◌, refl, Text, codes, text_eq,
  ok, err,
}
use atlas_knowledge.Storage.{
  FilePath, path_eq, is_under, Disk, value_error, resolve_key, put, get, delete_prefix,
  purge_document, purged, failed,
}
use atlas_knowledge.Storage.Confined.{put_lem, purge_document_lem}

abbrev root : FilePath
root = codes "data" ∷ []

abbrev passwords : FilePath
passwords = codes "etc" ∷ codes "passwd" ∷ []

abbrev original : FilePath
original = codes "data" ∷ codes "documents" ∷ codes "1" ∷ codes "original.pdf" ∷ []

abbrev key : Text
key = codes "documents/1/original.pdf"

abbrev folder : Text
folder = codes "documents/1/"

abbrev machine : Disk
machine = record {
  file_at = λ p. if path_eq p passwords then some (codes "root") else none;
  has_directory = λ p. path_eq p root || path_eq p (codes "etc" ∷ []);
}

abbrev with_document : Disk
with_document = elim (put root key (codes "law") machine) [ err e ↦ machine | ok disk ↦ disk ]

abbrev nothing_stuck : FilePath → Bool
nothing_stuck p = false

resolves_below : resolve_key root key ≡ ok original
unfolding resolve_key text_eq
resolves_below = refl

refuses_parents : resolve_key root (codes "documents/../../etc/passwd") ≡ err value_error
unfolding resolve_key text_eq
refuses_parents = refl

refuses_absolute : resolve_key root (codes "/etc/passwd") ≡ err value_error
unfolding resolve_key text_eq
refuses_absolute = refl

purges_documents :
    (purge_document 0 nothing_stuck root folder with_document).1.file_at original ≡ none
unfolding resolve_key put delete_prefix purge_document text_eq
purges_documents = refl

put_lem_example :
    (get root key with_document ≡ ok (codes "law"))
    × ((path : FilePath) × (is_under root path ≡ true)
        × ((p : FilePath) → ¬ (p ≡ path) → with_document.file_at p ≡ machine.file_at p))
unfolding resolve_key put text_eq
put_lem_example = put_lem root key (codes "law") machine refl

purge_document_lem_example :
    (((purge_document 0 nothing_stuck root folder with_document).0 ≡ purged)
      ⊎ ((purge_document 0 nothing_stuck root folder with_document).0 ≡ failed)
        × (resolve_key root folder ≡ err value_error))
    × ((purge_document 0 nothing_stuck root folder with_document).1.file_at passwords
        ≡ with_document.file_at passwords)
unfolding text_eq
purge_document_lem_example =
    purge_document_lem 0 nothing_stuck root folder with_document passwords refl
