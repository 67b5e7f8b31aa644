-- ===== src/Hf/Revisions/Lock.antt =====
-- `DatasetLock` of hf/revisions.py: the locked datasets.
use jpapt_v2_2_inspection.Base.{
  ◌≡◌, refl, sym, subst, String, false, Option, some, List, [], ◌∷◌, map, Result, ok, err, ◌>>=◌,
  ◌>>◌, ensure, length, any, ◌==◌, ==_iff, str_eq, eq_iff, if◌then◌else◌, ok-injective, >>=-eq-ok,
  ensure-eq-ok, arith, All,
}
use jpapt_v2_2_inspection.Base.Distinct.{Distinct, distinct, Distinct_of_length, str_eq-sym}
use jpapt_v2_2_inspection.Base.Json.{Json, arr, obj, Items, nil, cons, Fields, find}
use jpapt_v2_2_inspection.Hf.Revisions.{
  RevisionError, not_object, not_array, duplicate_dataset, unknown_dataset, RevisionDocument,
  reject_unknown, require_string, optional_string,
}

pub record DatasetLockEntry : Type 0 where
  pub id : String
  pub repo_id : String
  pub revision : String
  pub subset : Option String
  pub split : Option String
  pub sha256 : Option String
  pub manifest : Option String

pub record DatasetLock : Type 0 where
  pub document : RevisionDocument
  pub datasets : List DatasetLockEntry

abbrev pub object_of : Json → Result RevisionError Fields
object_of (obj fields) = ok fields
object_of _ = err not_object

abbrev pub array_of : Option Json → Result RevisionError Items
array_of (some (arr xs)) = ok xs
array_of _ = err not_array

abbrev pub entry_fields : List String
entry_fields = "id" ∷ "repo_id" ∷ "revision" ∷ "subset" ∷ "split" ∷ "sha256" ∷ "manifest" ∷ []

-- The body of the loop.
unfoldable pub lock_entry : Json → Result RevisionError DatasetLockEntry
lock_entry value = do
  item ← object_of value
  reject_unknown entry_fields item
  id ← require_string item "id"
  repo_id ← require_string item "repo_id"
  revision ← require_string item "revision"
  subset ← optional_string item "subset"
  split ← optional_string item "split"
  sha256 ← optional_string item "sha256"
  manifest ← optional_string item "manifest"
  ok (record {
    id = id;
    repo_id = repo_id;
    revision = revision;
    subset = subset;
    split = split;
    sha256 = sha256;
    manifest = manifest;
  })

unfoldable pub lock_entries : Items → Result RevisionError (List DatasetLockEntry)
lock_entries nil = ok []
lock_entries (cons value rest) = do
  entry ← lock_entry value
  entries ← lock_entries rest
  ok (entry ∷ entries)

abbrev pub ids_of : List DatasetLockEntry → List String
ids_of = map (λ e. e.id)

unfoldable pub lock_from : RevisionDocument → Result RevisionError DatasetLock
lock_from document = do
  reject_unknown ("schema_version" ∷ "datasets" ∷ []) document.raw
  raw_datasets ← array_of (find "datasets" document.raw)
  entries ← lock_entries raw_datasets
  ensure (length (ids_of entries) == length (distinct (ids_of entries))) duplicate_dataset
  ok (record { document = document; datasets = entries })

-- The loop of `get`.
unfoldable pub get_from : List DatasetLockEntry → String → Result RevisionError DatasetLockEntry
get_from [] id = err unknown_dataset
get_from (e ∷ rest) id = if str_eq e.id id then ok e else get_from rest id

unfoldable pub get : DatasetLock → String → Result RevisionError DatasetLockEntry
get lock id = get_from lock.datasets id

pub lock_from-Distinct :
    (document : RevisionDocument) (lock : DatasetLock)
    → lock_from document ≡ ok lock
    → Distinct (ids_of lock.datasets)
unfolding lock_from
lock_from-Distinct document lock h =
    let (_, _, h₁) =
      >>=-eq-ok (reject_unknown ("schema_version" ∷ "datasets" ∷ []) document.raw) _ h in
    let (raw, _, h₂) = >>=-eq-ok (array_of (find "datasets" document.raw)) _ h₁ in
    let (entries, _, h₃) = >>=-eq-ok (lock_entries raw) _ h₂ in
    let (same, h₄) =
      ensure-eq-ok (length (ids_of entries) == length (distinct (ids_of entries))) duplicate_dataset
        _ h₃ in
    subst (λ l. Distinct (ids_of l.datasets)) (ok-injective h₄)
      (Distinct_of_length (ids_of entries) (sym ((==_iff _ _).0 same)))

get_from-own :
    (es : List DatasetLockEntry) → Distinct (ids_of es) → All (λ e. get_from es e.id ≡ ok e) es
unfolding get_from
get_from-own [] d = tt
get_from-own (e ∷ es) d = (rw ((eq_iff e.id e.id).1 refl) refl, under es d.0 (get_from-own es d.1))
  where
    under :
        (fs : List DatasetLockEntry)
        → any (str_eq e.id) (ids_of fs) ≡ false
        → All (λ f. get_from es f.id ≡ ok f) fs
        → All (λ f. get_from (e ∷ es) f.id ≡ ok f) fs
    under [] a h = tt
    under (f ∷ fs) a h =
        let (apart, rest) : (str_eq e.id f.id ≡ false) × (any (str_eq e.id) (ids_of fs) ≡ false) =
          ground arith in
        (rw apart h.0, under fs rest h.1)

get_from-absent :
    (es : List DatasetLockEntry) (id : String)
    → any (str_eq id) (ids_of es) ≡ false
    → get_from es id ≡ err unknown_dataset
unfolding get_from
get_from-absent [] id h = refl
get_from-absent (e ∷ es) id h =
    let (apart, rest) : (str_eq id e.id ≡ false) × (any (str_eq id) (ids_of es) ≡ false) =
      ground arith in
    rw (str_eq-sym id e.id apart) (get_from-absent es id rest)

-- A lock that its document gives returns each of its entries for the entry's id, and raises for any
-- id that no entry has.
pub lock_from-get :
    (document : RevisionDocument) (lock : DatasetLock)
    → lock_from document ≡ ok lock
    → All (λ e. get lock e.id ≡ ok e) lock.datasets
      × ((id : String)
          → any (str_eq id) (ids_of lock.datasets) ≡ false
          → get lock id ≡ err unknown_dataset)
unfolding get
lock_from-get document lock h = (
  get_from-own lock.datasets (lock_from-Distinct document lock h),
  λ id. get_from-absent lock.datasets id,
)
