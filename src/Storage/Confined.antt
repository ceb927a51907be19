-- ===== src/Storage/Confined.antt =====
-- What the storage leaves alone.
use atlas_knowledge.Common.{
  ℕ, Bool, true, false, ◌||◌, not, [], ◌∷◌, some, any, ◌==◌, Text, text_eq, text_eq_refl,
  text_eq_iff, Outcome, ok, err, Bool-cases, ◌≡◌, refl, arith, inl, inr, ◌⊎◌,
}
use mathlib.Core.Path.{subst}
use atlas_knowledge.Storage.{
  FilePath, path_eq, is_under, Disk, StorageError, value_error, os_error, join_key, resolve_key,
  is_directory, is_blocked, with_file, write_file, read_file, rmtree, put, get, delete_prefix,
  purged, failed, purge_document,
}

path_eq_refl : (p : FilePath) → path_eq p p ≡ true
path_eq_refl [] = refl
path_eq_refl (x ∷ p) = rw (text_eq_refl x, path_eq_refl p) refl

path_eq_sound : (p q : FilePath) → path_eq p q ≡ true → p ≡ q
path_eq_sound [] [] h = refl
path_eq_sound [] (y ∷ q) h = cc
path_eq_sound (x ∷ p) [] h = cc
path_eq_sound (x ∷ p) (y ∷ q) h = elim (Bool-cases (text_eq x y)) [
  | inr e ↦ let bad : false ≡ true = rw e at h in cc bad
  | inl e ↦
      let same : x ≡ y = (text_eq_iff x y).0 e in
      let rest : p ≡ q = path_eq_sound p q (rw e at h) in cc
]

-- A key is resolved to a path at or below the root.
resolve_key-is_under :
    (root : FilePath) (key : Text) {path : FilePath}
    → resolve_key root key ≡ ok path
    → is_under root path ≡ true
unfolding resolve_key
resolve_key-is_under root key {path} h =
    elim (Bool-cases (any (λ c. c == 0) key || not (is_under root (join_key root key)))) [
      | inl e ↦ let bad : err value_error ≡ ok path = rw (e, resolve_key) at h in cc bad
      | inr e ↦
          let same : ok (join_key root key) ≡ ok path = rw (e, resolve_key) at h in
          let under : is_under root (join_key root key) ≡ true = ground (arith, e) in cc
    ]

resolve_key_err :
    (root : FilePath) (key : Text) {e : StorageError}
    → resolve_key root key ≡ err e
    → e ≡ value_error
unfolding resolve_key
resolve_key_err root key {e} h =
    elim (Bool-cases (any (λ c. c == 0) key || not (is_under root (join_key root key)))) [
      | inl b ↦ let same : err value_error ≡ err e = rw (b, resolve_key) at h in cc
      | inr b ↦ let bad : ok (join_key root key) ≡ err e = rw (b, resolve_key) at h in cc bad
    ]

-- A write leaves the file with its data, and every other file as it was.
abbrev Writes : FilePath → Text → Disk → Disk → Type 0
Writes path content disk after =
    (after.file_at path ≡ some content)
    × ((p : FilePath) → ¬ (p ≡ path) → after.file_at p ≡ disk.file_at p)

with_file-Writes :
    (path : FilePath) (content : Text) (disk : Disk)
    → Writes path content disk (with_file path content disk)
with_file-Writes path content disk = (rw (path_eq_refl path) refl, other)
  where
    other : (p : FilePath) → ¬ (p ≡ path) → (with_file path content disk).file_at p ≡ disk.file_at p
    other p different = elim (Bool-cases (path_eq p path)) [
      | inl e ↦ elim (different (path_eq_sound p path e)) [ ]
      | inr e ↦ rw e refl
    ]

write_file-Writes :
    (path : FilePath) (content : Text) (disk : Disk) {after : Disk}
    → write_file path content disk ≡ ok after
    → Writes path content disk after
write_file-Writes path content disk {after} h =
    elim (Bool-cases (is_blocked disk [] path || is_directory disk path)) [
      | inl e ↦ let bad : err os_error ≡ ok after = rw e at h in cc bad
      | inr e ↦
          let same : ok (with_file path content disk) ≡ ok after = rw e at h in
          let equal : with_file path content disk ≡ after = cc same in
          subst (Writes path content disk) equal (with_file-Writes path content disk)
    ]

Outcome-cases :
    (o : Outcome StorageError FilePath)
    → ((e : StorageError) × (o ≡ err e)) ⊎ ((path : FilePath) × (o ≡ ok path))
Outcome-cases (err e) = inl (e, refl)
Outcome-cases (ok path) = inr (path, refl)

read_file-Writes :
    (path : FilePath) (content : Text) (disk after : Disk)
    → Writes path content disk after
    → read_file path after ≡ ok content
read_file-Writes path content disk after w = rw (read_file, w.0) refl

-- After a put the key reads as the data that was put, the file stands at or below the root, and every
-- other file of the machine is as before.
pub put_lem :
    (root : FilePath) (key content : Text) (disk : Disk) {after : Disk}
    → put root key content disk ≡ ok after
    → (get root key after ≡ ok content)
      × ((path : FilePath) × (is_under root path ≡ true)
          × ((p : FilePath) → ¬ (p ≡ path) → after.file_at p ≡ disk.file_at p))
unfolding put get
put_lem root key content disk {after} h = elim (Outcome-cases (resolve_key root key)) [
  | inl (e, r) ↦ let bad : err e ≡ ok after = rw (r, put) at h in cc bad
  | inr (path, r) ↦
      let written : write_file path content disk ≡ ok after = rw (r, put) at h in
      let w : Writes path content disk after = write_file-Writes path content disk written in
      let reads : get root key after ≡ ok content =
        rw (r, get) (read_file-Writes path content disk after w) in
      (reads, (path, resolve_key-is_under root key r, w.1))
]

is_under_trans :
    (p q r : FilePath) → is_under p q ≡ true → is_under q r ≡ true → is_under p r ≡ true
is_under_trans [] q r a b = refl
is_under_trans (x ∷ p) [] r a b = cc
is_under_trans (x ∷ p) (y ∷ q) [] a b = cc
is_under_trans (x ∷ p) (y ∷ q) (z ∷ r) a b =
    let xy : text_eq x y ≡ true = ground (arith, a) in
    let yz : text_eq y z ≡ true = ground (arith, b) in
    let same : x ≡ y = (text_eq_iff x y).0 xy in
    let pq : is_under p q ≡ true = ground (arith, a) in
    let qr : is_under q r ≡ true = ground (arith, b) in
    rw (same, yz, is_under_trans p q r pq qr) refl

outside :
    (root path p : FilePath)
    → is_under root path ≡ true
    → is_under root p ≡ false
    → is_under path p ≡ false
outside root path p a b = elim (Bool-cases (is_under path p)) [
  | inl e ↦ let c : is_under root p ≡ true = is_under_trans root path p a e in cc
  | inr e ↦ e
]

rmtree_outside :
    (stuck : FilePath → Bool) (path : FilePath) (disk : Disk) (p : FilePath)
    → is_under path p ≡ false
    → (rmtree stuck path disk).file_at p ≡ disk.file_at p
rmtree_outside stuck path disk p h = elim (Bool-cases (is_directory disk path)) [
  | inl e ↦ rw (e, h) refl
  | inr e ↦ rw e refl
]

-- A purge task is never run again, whatever the disk refuses to remove: it returns, or it fails on a
-- prefix that leaves the root. A file outside the root is as before.
pub purge_document_lem :
    (retries : ℕ) (stuck : FilePath → Bool) (root : FilePath) (prefix : Text) (disk : Disk)
    (p : FilePath)
    → is_under root p ≡ false
    → (((purge_document retries stuck root prefix disk).0 ≡ purged)
        ⊎ ((purge_document retries stuck root prefix disk).0 ≡ failed)
          × (resolve_key root prefix ≡ err value_error))
      × ((purge_document retries stuck root prefix disk).1.file_at p ≡ disk.file_at p)
unfolding purge_document delete_prefix
purge_document_lem retries stuck root prefix disk p out =
    elim (Outcome-cases (resolve_key root prefix)) [
      | inl (e, r) ↦
          let same : e ≡ value_error = resolve_key_err root prefix r in
          rw (purge_document, delete_prefix, r, same) (inr (refl, refl), refl)
      | inr (path, r) ↦
          rw (purge_document, delete_prefix, r)
            (
              inl refl,
              rmtree_outside stuck path disk p
                  (outside root path p (resolve_key-is_under root prefix r) out),
            )
    ]
