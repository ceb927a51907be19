-- ===== src/Storage.antt =====
-- The object storage on the local file system (local_fs.py of backend/app/infrastructure/storage) and
-- the task that purges a document (`purge_document` of backend/app/workers/tasks/ingest.py). Links,
-- and faults of the disk in a read or a write, are left out.
pub mod Confined
mod Examples
use atlas_knowledge.Common.{
  ℕ, Bool, true, false, ◌&&◌, ◌||◌, not, List, [], ◌∷◌, ◌++◌, Option, none, some, ◌==◌, leb,
  if◌then◌else◌, any, is_empty, Text, codes, text_eq, Outcome, ok, err,
}

-- The names on the way from `/`.
abbrev pub FilePath : Type 0
FilePath = List Text

abbrev pub path_eq : FilePath → FilePath → Bool
path_eq [] [] = true
path_eq [] (y ∷ q) = false
path_eq (x ∷ p) [] = false
path_eq (x ∷ p) (y ∷ q) = text_eq x y && path_eq p q

-- `q == p or p in q.parents`
abbrev pub is_under : FilePath → FilePath → Bool
is_under [] q = true
is_under (x ∷ p) [] = false
is_under (x ∷ p) (y ∷ q) = text_eq x y && is_under p q

-- The files and directories of the machine.
pub record Disk : Type 0 where
  pub file_at : FilePath → Option Text
  pub has_directory : FilePath → Bool

pub data StorageError : Type 0 where
  value_error os_error : StorageError

-- The parts of a key between its slashes; `part` is the one being read.
abbrev pub parts_from : Text → Text → List Text
parts_from part [] = part ∷ []
parts_from part (c ∷ rest) =
    let next = parts_from [] rest in
    let longer = parts_from (part ++ c ∷ []) rest in if c == 47 then part ∷ next else longer

abbrev pub without_last : FilePath → FilePath
without_last [] = []
without_last (x ∷ p) = if is_empty p then [] else x ∷ without_last p

-- One part of a path in `Path.resolve`.
abbrev pub follow : FilePath → Text → FilePath
follow p part =
    if is_empty part || text_eq part (codes ".")
    then p
    else if text_eq part (codes "..")
    then without_last p
    else p ++ part ∷ []

abbrev pub follow_all : FilePath → List Text → FilePath
follow_all p [] = p
follow_all p (part ∷ rest) = follow_all (follow p part) rest

-- `(root / key).resolve()`; an absolute key replaces the root.
abbrev pub join_key : FilePath → Text → FilePath
join_key root [] = root
join_key root (c ∷ key) = follow_all (if c == 47 then [] else root) (parts_from [] (c ∷ key))

-- `_resolve`; a null byte raises the same error as an escape.
unfoldable pub resolve_key : FilePath → Text → Outcome StorageError FilePath
resolve_key root key =
    if any (λ c. c == 0) key || not (is_under root (join_key root key))
    then err value_error
    else ok (join_key root key)

abbrev pub is_file : Disk → FilePath → Bool
is_file disk p = elim (disk.file_at p) [ none ↦ false | some content ↦ true ]

abbrev pub is_directory : Disk → FilePath → Bool
is_directory disk p = is_empty p || disk.has_directory p

-- Whether a file stands where a parent of the path has to be a directory.
abbrev pub is_blocked : Disk → FilePath → FilePath → Bool
is_blocked disk above [] = false
is_blocked disk above (x ∷ p) = is_file disk above || is_blocked disk (above ++ x ∷ []) p

-- The disk with this file in its directories.
abbrev pub with_file : FilePath → Text → Disk → Disk
with_file path content disk = record {
  file_at = λ p. if path_eq p path then some content else disk.file_at p;
  has_directory = λ p. disk.has_directory p || (is_under p path && not (path_eq p path));
}

-- `_write`
abbrev pub write_file : FilePath → Text → Disk → Outcome StorageError Disk
write_file path content disk =
    if is_blocked disk [] path || is_directory disk path
    then err os_error
    else ok (with_file path content disk)

abbrev pub read_file : FilePath → Disk → Outcome StorageError Text
read_file path disk = elim (disk.file_at path) [ none ↦ err os_error | some content ↦ ok content ]

-- `shutil.rmtree(path, True)`. The argument tells what the disk refuses to remove, a directory that
-- holds such an entry among it; an error is ignored, also that the path is no directory.
abbrev pub rmtree : (FilePath → Bool) → FilePath → Disk → Disk
rmtree stuck path disk =
    if is_directory disk path
    then record {
      file_at = λ p. if is_under path p && not (stuck p) then none else disk.file_at p;
      has_directory = λ p. disk.has_directory p && not (is_under path p && not (stuck p));
    }
    else disk

-- `LocalFileStorage.put`, `get` and `delete_prefix`
unfoldable pub put : FilePath → Text → Text → Disk → Outcome StorageError Disk
put root key content disk = elim (resolve_key root key) [
  | err e ↦ err e
  | ok path ↦ write_file path content disk
]

unfoldable pub get : FilePath → Text → Disk → Outcome StorageError Text
get root key disk = elim (resolve_key root key) [ err e ↦ err e | ok path ↦ read_file path disk ]

unfoldable pub delete_prefix :
    (FilePath → Bool) → FilePath → Text → Disk → Outcome StorageError Disk
delete_prefix stuck root prefix disk = elim (resolve_key root prefix) [
  | err e ↦ err e
  | ok path ↦ ok (rmtree stuck path disk)
]

-- How a run of the task ends: it returns, asks to be run again, or fails.
pub data Purge : Type 0 where
  purged retried failed : Purge

-- `autoretry_for=(OSError,)` with `max_retries=3`
abbrev pub purge_ending : ℕ → Disk → Outcome StorageError Disk → Purge × Disk
purge_ending retries disk (ok after) = (purged, after)
purge_ending retries disk (err value_error) = (failed, disk)
purge_ending retries disk (err os_error) = (if leb 3 retries then failed else retried, disk)

unfoldable pub purge_document : ℕ → (FilePath → Bool) → FilePath → Text → Disk → Purge × Disk
purge_document retries stuck root prefix disk =
    purge_ending retries disk (delete_prefix stuck root prefix disk)
