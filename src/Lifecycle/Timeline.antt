-- ===== src/Lifecycle/Timeline.antt =====
-- scripts/ci/build-candidate-request-timeline.py: the timeline of a request, built from the snapshots
-- that several sources hold, and the validation of a timeline. Files are read by a parameter; writing
-- the timeline is left out.
pub mod Build
pub mod Sources
pub mod Observed
pub mod Valid
pub mod Assembled
pub mod Written
pub mod Grouped
mod Tests
use jpapt_v2_2_inspection.Base.{
  ℕ, zero, suc, String, Bool, true, false, not, ◌&&◌, ◌||◌, Option, none, some, List, [], ◌∷◌, ◌++◌,
  map, Result, ok, err, ◌>>=◌, ◌>>◌, ensure, raise_if, require, if◌then◌else◌, length, all, any,
  leb, ◌==◌, str_eq,
}
use Prim.Native.Char.{code}
use jpapt_v2_2_inspection.Base.Int.{ℤ, pos, le_ℤ}
use jpapt_v2_2_inspection.Base.Distinct.{distinct}
use jpapt_v2_2_inspection.Base.Sorting.{sort, then_by}
use jpapt_v2_2_inspection.Base.Text.{codes, leb_text}
use jpapt_v2_2_inspection.Base.Json.{
  Json, int, str, arr, obj, Items, nil, cons, Fields, end, field, find, keys, or_null, same_json,
}
use jpapt_v2_2_inspection.Lifecycle.Snapshot.{
  LifecycleError, fields_mismatch, bad_schema_version, bad_request_id, bad_execution_id, bad_state,
  request_id_mismatch, execution_id_mismatch, no_candidates, bad_candidate, unreadable,
  bad_request_key, bad_events, bad_event, bad_sources, duplicate_observation, digest_mismatch,
  not_ordered, bad_current_state, state_rank, state_of, named_state, DateTime, hex_char,
  is_request_id, is_sha256, text_value, is_none, is_one, contains, parse_time,
}
use jpapt_v2_2_inspection.Lifecycle.Current.{is_text}

-- Of the standard library: `sha256(text.encode()).hexdigest()`, and `json.dumps` in the canonical
-- form.
pub record Digests : Type 0 where
  pub hexdigest : String → String
  pub canonical : Fields → String

-- `text[:n]`
unfoldable pub prefix : ℕ → String → String
prefix zero s = String.[]
prefix (suc n) String.[] = String.[]
prefix (suc n) (String.◌∷◌ c s) = String.◌∷◌ c (prefix n s)

-- `text.split("=", 1)`
unfoldable pub split_equals : String → Option (String × String)
split_equals String.[] = none
split_equals (String.◌∷◌ c s) =
    let rest = split_equals s in
    if code c == 61
    then some (String.[], s)
    else elim rest [ none ↦ none | some (a, b) ↦ some (String.◌∷◌ c a, b) ]

unfoldable pub parse_candidate : String → Result LifecycleError (String × String)
unfolding split_equals
parse_candidate text = do
  (source, path) ← require (split_equals text) bad_candidate
  ensure (not (str_eq source "") && not (str_eq path "")) bad_candidate
  ok (source, path)

-- `REQUEST_KEY_RE`
unfoldable pub is_request_key : String → Bool
is_request_key s = length (codes s) == 24 && all hex_char (codes s)

-- The key `(observed_at, STATE_RANK[state], digest)`.
pub record Key : Type 0 where
  pub observed_at : ℤ
  pub rank : ℕ
  pub digest : String

abbrev pub by_time : Key → Key → Bool
by_time a b = le_ℤ a.observed_at b.observed_at

abbrev pub by_rank : Key → Key → Bool
by_rank a b = leb a.rank b.rank

abbrev pub by_digest : Key → Key → Bool
by_digest a b = leb_text a.digest b.digest

-- `<=` on the keys.
abbrev pub by_key : Key → Key → Bool
by_key = then_by by_time (then_by by_rank by_digest)

-- What stands under a digest: the snapshot, and its sources as they were added to the set.
pub record Observation : Type 0 where
  pub key : Key
  pub snapshot : Fields
  pub sources : List String

abbrev pub in_order : Observation → Observation → Bool
in_order a b = by_key a.key b.key

-- `observations[digest]["sources"].add(source)`, where a new digest starts with no source.
unfoldable pub add_observation : Observation → String → List Observation → List Observation
add_observation new source [] = record new { sources = source ∷ [] } ∷ []
add_observation new source (o ∷ rest) =
    if str_eq o.key.digest new.key.digest
    then record o { sources = o.sources ++ source ∷ [] } ∷ rest
    else o ∷ add_observation new source rest

unfoldable pub texts_json : List String → Items
texts_json [] = nil
texts_json (s ∷ rest) = cons (str s) (texts_json rest)

-- `sorted(set(sources))`
abbrev pub sorted_set : List String → List String
sorted_set sources = sort leb_text (distinct sources)

unfoldable pub event_of : Observation → Json
unfolding texts_json distinct sort
event_of o = obj (
    field "observation_sha256" (str o.key.digest) (
      field "sources" (arr (texts_json (sorted_set o.sources)))
        (field "snapshot" (obj o.snapshot) end)))

unfoldable pub events_of : List Observation → Items
unfolding event_of
events_of [] = nil
events_of (o ∷ rest) = cons (event_of o) (events_of rest)

-- `events[-1]["snapshot"]["state"]` of the built events.
abbrev pub last_state : Observation → List Observation → Json
last_state o [] = or_null (find "state" o.snapshot)
last_state o (p ∷ rest) = last_state p rest

-- The non-empty texts that the items of an array are.
unfoldable pub source_texts : Items → Option (List String)
source_texts nil = some []
source_texts (cons (str s) rest) = elim (source_texts rest) [
  | none ↦ none
  | some texts ↦ if str_eq s "" then none else some (s ∷ texts)
]
source_texts (cons _ rest) = none

unfoldable pub same_texts : List String → List String → Bool
same_texts [] [] = true
same_texts [] (t ∷ ts) = false
same_texts (s ∷ ss) [] = false
same_texts (s ∷ ss) (t ∷ ts) = str_eq s t && same_texts ss ts

abbrev pub array_of : Option Json → Option Items
array_of (some (arr xs)) = some xs
array_of _ = none

abbrev pub object_of : Option Json → Option Fields
object_of (some (obj fields)) = some fields
object_of _ = none

abbrev pub text_of : (String → Bool) → Option Json → Option String
text_of test (some (str s)) = if test s then some s else none
text_of test _ = none

-- A non-empty array of sorted texts with no repetition.
unfoldable pub sources_valid : Option Items → Bool
unfolding source_texts same_texts distinct sort
sources_valid none = false
sources_valid (some nil) = false
sources_valid (some (cons v rest)) = elim (source_texts (cons v rest)) [
  | none ↦ false
  | some texts ↦ same_texts texts (sorted_set texts)
]

abbrev pub event_fields : List String
event_fields = "observation_sha256" ∷ "sources" ∷ "snapshot" ∷ []

abbrev pub timeline_fields : List String
timeline_fields =
    "schema_version" ∷ "request_id" ∷ "request_key" ∷ "current_state" ∷ "event_count" ∷ "events"
    ∷ []

-- The keys are the required ones, and of the optional ones some.
unfoldable pub has_fields : List String → List String → Fields → Bool
unfolding keys
has_fields required optional value =
    all (contains (keys value)) required && all (contains (optional ++ required)) (keys value)

abbrev pub length_items : Items → ℕ
length_items nil = 0
length_items (cons v rest) = suc (length_items rest)
