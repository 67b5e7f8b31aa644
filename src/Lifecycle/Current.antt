-- ===== src/Lifecycle/Current.antt =====
-- scripts/ci/reduce-candidate-lifecycle.py and compare-candidate-lifecycle-state.py: which of several
-- snapshots is the current one. Files are read before: a candidate is its source, path and snapshot.
use jpapt_v2_2_inspection.Base.{
  ℕ, String, Bool, false, not, ◌&&◌, ◌||◌, Option, none, some, List, [], ◌∷◌, Result, ok, err,
  ◌>>=◌, ◌>>◌, ensure, require, leb, str_eq,
}
use jpapt_v2_2_inspection.Base.Int.{ℤ, le_ℤ}
use jpapt_v2_2_inspection.Base.Sorting.{sort, then_by}
use jpapt_v2_2_inspection.Base.Json.{Json, str, truthy, or_null, same_json, Fields, find}
use jpapt_v2_2_inspection.Lifecycle.Snapshot.{
  LifecycleError, request_id_mismatch, execution_id_mismatch, state_mismatch, no_candidates,
  bad_state, state_rank, state_of, named_state, DateTime, parse_time,
}

pub record Candidate : Type 0 where
  pub observed_at : ℤ
  pub rank : ℕ
  pub source : String
  pub path : String
  pub snapshot : Fields

-- The sort key `(observed_at, STATE_RANK[state])`, the greatest first.
abbrev pub later : Candidate → Candidate → Bool
later a b = le_ℤ b.observed_at a.observed_at

abbrev pub higher : Candidate → Candidate → Bool
higher a b = leb b.rank a.rank

abbrev pub by_recency : Candidate → Candidate → Bool
by_recency = then_by later higher

-- `value.get(key) == text`
abbrev pub is_text : String → Option Json → Bool
is_text s (some (str t)) = str_eq t s
is_text s _ = false

-- A source, a path and the snapshot that the path holds.
abbrev pub Source : Type 0
Source = String × String × Fields

module _ (from_iso : List ℕ → Option DateTime) (request_id request_execution_id : String) where
  -- The loop's body: an empty execution id asks for none.
  unfoldable pub candidate_of : Source → Result LifecycleError Candidate
  unfolding parse_time named_state find
  candidate_of (source, path, value) = do
    ensure (is_text request_id (find "request_id" value)) request_id_mismatch
    ensure
        (str_eq request_execution_id ""
          || is_text request_execution_id (find "request_execution_id" value))
        execution_id_mismatch
    state ← require (state_of (find "state" value)) bad_state
    observed_at ← parse_time from_iso (find "updated_at" value)
    ok (record {
      observed_at = observed_at;
      rank = state_rank state;
      source = source;
      path = path;
      snapshot = value;
    })

  unfoldable pub candidates_of : List Source → Result LifecycleError (List Candidate)
  unfolding candidate_of
  candidates_of [] = ok []
  candidates_of (source ∷ sources) = do
    candidate ← candidate_of source
    rest ← candidates_of sources
    ok (candidate ∷ rest)

  abbrev pub first : List Candidate → Result LifecycleError Candidate
  first [] = err no_candidates
  first (candidate ∷ rest) = ok candidate

  -- The selected candidate, whose snapshot is written.
  unfoldable pub reduce : List Source → Result LifecycleError Candidate
  unfolding candidates_of sort
  reduce sources = do candidates ← candidates_of sources; first (sort by_recency candidates)

-- `existing.get(field) == incoming.get(field)`, where a missing value is None.
abbrev pub same_value : Option Json → Option Json → Bool
same_value a b = same_json (or_null a) (or_null b)

abbrev pub is_truthy : Option Json → Bool
is_truthy none = false
is_truthy (some v) = truthy v

module _ (from_iso : List ℕ → Option DateTime) where
  -- Whether the incoming snapshot replaces the existing one.
  unfoldable pub should_write : Fields → Fields → Bool → Result LifecycleError Bool
  unfolding parse_time find same_json
  should_write existing incoming require_execution_match = do
    ensure (same_value (find "request_id" existing) (find "request_id" incoming))
        request_id_mismatch
    ensure (same_value (find "state" existing) (find "state" incoming)) state_mismatch
    ensure
        (not require_execution_match
          || (is_truthy (find "request_execution_id" existing)
              && same_value (find "request_execution_id" existing)
                  (find "request_execution_id" incoming)))
        execution_id_mismatch
    existing_time ← parse_time from_iso (find "updated_at" existing)
    incoming_time ← parse_time from_iso (find "updated_at" incoming)
    ok (le_ℤ existing_time incoming_time)
