-- ===== src/Lifecycle/Timeline/Build.antt =====
-- `build` and `validate_timeline` of scripts/ci/build-candidate-request-timeline.py. An empty execution
-- id stands for none.
use jpapt_v2_2_inspection.Base.{
  ℕ, String, Bool, false, not, ◌||◌, Option, none, some, List, [], ◌∷◌, Result, ok, err, ◌>>=◌,
  ◌>>◌, ensure, raise_if, require, if◌then◌else◌, length, str_eq,
}
use jpapt_v2_2_inspection.Base.Int.{pos}
use jpapt_v2_2_inspection.Base.Sorting.{sort}
use jpapt_v2_2_inspection.Base.Json.{
  Json, null, int, str, arr, obj, Items, nil, cons, Fields, end, field, find, or_null, same_json,
}
use jpapt_v2_2_inspection.Lifecycle.Snapshot.{
  LifecycleError, fields_mismatch, bad_schema_version, bad_request_id, bad_execution_id, bad_state,
  request_id_mismatch, execution_id_mismatch, no_candidates, unreadable, bad_request_key,
  bad_events, bad_event, bad_sources, duplicate_observation, digest_mismatch, not_ordered,
  bad_current_state, state_rank, state_of, named_state, DateTime, is_request_id, is_sha256,
  text_value, is_none, is_one, contains, parse_time,
}
use jpapt_v2_2_inspection.Lifecycle.Current.{is_text}
use jpapt_v2_2_inspection.Lifecycle.Timeline.{
  Digests, prefix, parse_candidate, is_request_key, Key, by_key, Observation, in_order,
  add_observation, events_of, last_state, array_of, object_of, text_of, sources_valid, event_fields,
  timeline_fields, has_fields, length_items,
}

-- The text of a validated execution id.
abbrev pub execution_of : Option Json → String
execution_of (some (str s)) = s
execution_of _ = ""

-- `request_execution_id and value.get("request_execution_id") != request_execution_id` fails.
abbrev pub execution_matches : String → Fields → Bool
execution_matches execution value =
    str_eq execution "" || is_text execution (find "request_execution_id" value)

-- `previous_key is not None and key < previous_key`
abbrev pub precedes : Key → Option Key → Bool
precedes key none = false
precedes key (some previous) = not (by_key previous key)

-- `events[-1]["snapshot"]["state"]`
abbrev pub state_in : Option Fields → Json
state_in none = null
state_in (some snapshot) = or_null (find "state" snapshot)

abbrev pub event_state : Json → Json
event_state (obj event) = state_in (object_of (find "snapshot" event))
event_state _ = null

abbrev pub final_state : Json → Items → Json
final_state e nil = event_state e
final_state e (cons next rest) = final_state next rest

module _ (from_iso : List ℕ → Option DateTime) (digests : Digests) where
  abbrev pub observation_sha256 : Fields → String
  observation_sha256 value = digests.hexdigest (digests.canonical value)

  abbrev pub request_key : String → String
  request_key request_id = prefix 24 (digests.hexdigest request_id)

  -- The part of the loop's body that reads the snapshot of an event.
  unfoldable pub check_snapshot :
      String → String → String → Option Key → Fields → Result LifecycleError Key
  unfolding parse_time named_state find
  check_snapshot request_id execution digest previous snapshot = do
    ensure (is_text request_id (find "request_id" snapshot)) request_id_mismatch
    ensure (execution_matches execution snapshot) execution_id_mismatch
    state ← require (state_of (find "state" snapshot)) bad_state
    ensure (str_eq (observation_sha256 snapshot) digest) digest_mismatch
    observed_at ← parse_time from_iso (find "updated_at" snapshot)
    let key : Key = record { observed_at = observed_at; rank = state_rank state; digest = digest }
    raise_if (precedes key previous) not_ordered
    ok key

  unfoldable pub check_event :
      String → String → List String → Option Key → Json → Result LifecycleError Key
  unfolding has_fields is_sha256 sources_valid check_snapshot find
  check_event request_id execution seen previous (obj event) = do
    ensure (has_fields event_fields [] event) bad_event
    digest ← require (text_of is_sha256 (find "observation_sha256" event)) bad_event
    raise_if (contains seen digest) duplicate_observation
    ensure (sources_valid (array_of (find "sources" event))) bad_sources
    snapshot ← require (object_of (find "snapshot" event)) bad_event
    check_snapshot request_id execution digest previous snapshot
  check_event request_id execution seen previous _ = err bad_event

  unfoldable pub check_events :
      String → String → List String → Option Key → Items → Result LifecycleError (Unit {0})
  unfolding check_event
  check_events request_id execution seen previous nil = ok tt
  check_events request_id execution seen previous (cons event rest) = do
    key ← check_event request_id execution seen previous event
    check_events request_id execution (key.digest ∷ seen) (some key) rest

  -- From the test that `events` is not empty.
  unfoldable pub check_all : String → String → Fields → Items → Result LifecycleError (Unit {0})
  unfolding check_events same_json find
  check_all request_id execution value nil = err bad_events
  check_all request_id execution value (cons event rest) = do
    ensure
        (same_json (or_null (find "event_count" value))
          (int (pos (length_items (cons event rest)))))
        bad_events
    check_events request_id execution [] none (cons event rest)
    ensure (same_json (or_null (find "current_state" value)) (final_state event rest))
        bad_current_state

  -- The tests on the ids and the key, which return the request id.
  unfoldable pub check_identity : Fields → Result LifecycleError String
  unfolding is_request_id is_request_key find prefix
  check_identity value = do
    request_id ← require (text_of is_request_id (find "request_id" value)) bad_request_id
    let execution = find "request_execution_id" value
    ensure (is_none execution || text_value is_request_id execution) bad_execution_id
    key ← require (text_of is_request_key (find "request_key" value)) bad_request_key
    ensure (str_eq key (request_key request_id)) bad_request_key
    ok request_id

  unfoldable pub validate_timeline : Fields → Result LifecycleError (Unit {0})
  unfolding has_fields check_identity check_all find
  validate_timeline value = do
    ensure (has_fields timeline_fields ("request_execution_id" ∷ []) value) fields_mismatch
    ensure (is_one (find "schema_version" value)) bad_schema_version
    request_id ← check_identity value
    events ← require (array_of (find "events" value)) bad_events
    check_all request_id (execution_of (find "request_execution_id" value)) value events

  -- The fields of a timeline, for observations in order of which `first` is the first.
  abbrev pub execution_field : String → Fields
  execution_field execution =
      if str_eq execution "" then end else field "request_execution_id" (str execution) end

  unfoldable pub timeline_of : String → String → Observation → List Observation → Fields
  unfolding events_of prefix
  timeline_of request_id execution first rest = field "schema_version" (int (pos 1)) (
      field "request_id" (str request_id) (
        field "request_key" (str (request_key request_id)) (
          field "current_state" (last_state first rest) (
            field "event_count" (int (pos (length (first ∷ rest))))
              (field "events" (arr (events_of (first ∷ rest))) (execution_field execution))))))

  -- `load_json_object`; `none`: it raises.
  module _ (load_json_object : String → Option Fields) (request_id execution : String) where
    -- The snapshot with the key under which it is sorted.
    unfoldable pub observe : Fields → Result LifecycleError Observation
    unfolding parse_time named_state find
    observe value = do
      ensure (is_text request_id (find "request_id" value)) request_id_mismatch
      ensure (execution_matches execution value) execution_id_mismatch
      state ← require (state_of (find "state" value)) bad_state
      observed_at ← parse_time from_iso (find "updated_at" value)
      ok (record {
        key = record {
          observed_at = observed_at;
          rank = state_rank state;
          digest = observation_sha256 value;
        };
        snapshot = value;
        sources = [];
      })

    unfoldable pub load_snapshot : String → Result LifecycleError Observation
    unfolding observe
    load_snapshot path = do value ← require (load_json_object path) unreadable; observe value

    -- The loop over the candidates.
    unfoldable pub collect :
        List String → List Observation → Result LifecycleError (List Observation)
    unfolding parse_candidate load_snapshot add_observation
    collect [] observations = ok observations
    collect (candidate ∷ candidates) observations = do
      (source, path) ← parse_candidate candidate
      new ← load_snapshot path
      collect candidates (add_observation new source observations)

    abbrev pub assemble_sorted : List Observation → Result LifecycleError Fields
    assemble_sorted [] = err no_candidates
    assemble_sorted (first ∷ rest) = ok (timeline_of request_id execution first rest)

    -- `build` up to the validation.
    unfoldable pub assemble : List String → Result LifecycleError Fields
    unfolding is_request_id collect sort timeline_of
    assemble candidates = do
      ensure (is_request_id request_id) bad_request_id
      ensure (str_eq execution "" || is_request_id execution) bad_execution_id
      observations ← collect candidates []
      assemble_sorted (sort in_order observations)

    -- The timeline that `build` writes.
    unfoldable pub build : List String → Result LifecycleError Fields
    unfolding assemble validate_timeline
    build candidates = do timeline ← assemble candidates; validate_timeline timeline; ok timeline
