-- ===== src/Lifecycle/Events.antt =====
-- scripts/ci/build-candidate-lifecycle-event-key.py: the key under which a snapshot is kept.
use jpapt_v2_2_inspection.Base.{
  String, Option, none, some, Result, ok, err, ◌>>=◌, require, if◌then◌else◌,
}
use jpapt_v2_2_inspection.Base.Json.{Json, Fields, find}
use jpapt_v2_2_inspection.Lifecycle.Snapshot.{
  LifecycleError, bad_state, needs_evaluation_run, needs_receiver_run, State, planned, dispatched,
  running, rejected, completed, acknowledged, state_text, state_of, named_state, is_positive,
}
use jpapt_v2_2_inspection.Base.Json.{truthy}
use Prim.Native.String.{◌++◌ as ◌<>◌}

-- The text of a JSON value in an f-string, and the first 16 digits of the snapshot's SHA-256.
pub record Texts : Type 0 where
  pub of_json : Json → String
  pub digest_16 : Fields → String

-- The value under a key, if it is an integer of at least 1.
abbrev pub run_value : Option Json → LifecycleError → Result LifecycleError Json
run_value none e = err e
run_value (some v) e = if is_positive (some v) then ok v else err e

abbrev pub run_of : String → LifecycleError → Fields → Result LifecycleError Json
run_of key e snapshot = run_value (find key snapshot) e

module _ (texts : Texts) where
  -- `snapshot.get("gateway_run_id") or "unknown"`
  abbrev pub gateway_run : Option Json → String
  gateway_run none = "unknown"
  gateway_run (some v) = if truthy v then texts.of_json v else "unknown"

  abbrev pub gateway_key : State → Fields → String
  gateway_key state snapshot =
      "gateway-"
      <> gateway_run (find "gateway_run_id" snapshot)
      <> "-"
      <> state_text state
      <> "-"
      <> texts.digest_16 snapshot

  unfoldable pub evaluation_key : State → Fields → Result LifecycleError String
  unfolding find
  evaluation_key state snapshot = do
    run_id ← run_of "evaluation_run_id" needs_evaluation_run snapshot
    attempt ← run_of "evaluation_run_attempt" needs_evaluation_run snapshot
    ok (
        "evaluation-"
        <> texts.of_json run_id
        <> "-"
        <> texts.of_json attempt
        <> "-"
        <> state_text state
        <> "-"
        <> texts.digest_16 snapshot)

  unfoldable pub acknowledged_key : Fields → Result LifecycleError String
  unfolding find
  acknowledged_key snapshot = do
    run_id ← run_of "evaluation_run_id" needs_evaluation_run snapshot
    attempt ← run_of "evaluation_run_attempt" needs_evaluation_run snapshot
    receiver_run_id ← run_of "receiver_run_id" needs_receiver_run snapshot
    ok (
        "evaluation-"
        <> texts.of_json run_id
        <> "-"
        <> texts.of_json attempt
        <> "-receiver-"
        <> texts.of_json receiver_run_id
        <> "-acknowledged-"
        <> texts.digest_16 snapshot)

  unfoldable pub key_of : State → Fields → Result LifecycleError String
  unfolding evaluation_key acknowledged_key
  key_of planned snapshot = ok (gateway_key planned snapshot)
  key_of dispatched snapshot = ok (gateway_key dispatched snapshot)
  key_of rejected snapshot = ok (gateway_key rejected snapshot)
  key_of running snapshot = evaluation_key running snapshot
  key_of completed snapshot = evaluation_key completed snapshot
  key_of acknowledged snapshot = acknowledged_key snapshot

  unfoldable pub event_key : Fields → Result LifecycleError String
  unfolding key_of named_state find
  event_key snapshot = do
    state ← require (state_of (find "state" snapshot)) bad_state
    key_of state snapshot
