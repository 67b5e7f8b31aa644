-- ===== src/Lifecycle/Accepted.antt =====
-- A validated snapshot has an event key (scripts/ci/build-candidate-request-lifecycle.py,
-- build-candidate-lifecycle-event-key.py).
use jpapt_v2_2_inspection.Base.{
  ℕ, ◌≡◌, refl, ap, String, Bool, true, false, ◌||◌, Option, none, some, List, Result, ok, raise_if,
  require, >>=-eq-ok, >>=-ok, ◌⊎◌, inl, inr, zero, suc, raise_if-eq-ok, ensure-eq-ok, require-eq-ok,
}
use jpapt_v2_2_inspection.Base.Json.{
  Json, null, bool, int, real, str, arr, tuple, obj, Fields, find,
}
use Prim.Native.String.{◌++◌ as ◌<>◌}
use jpapt_v2_2_inspection.Base.Int.{pos, negsuc}
use jpapt_v2_2_inspection.Lifecycle.States.{state_named}
use jpapt_v2_2_inspection.Lifecycle.Snapshot.{
  LifecycleError, fields_mismatch, bad_schema_version, bad_request_id, bad_execution_id, bad_state,
  bad_repository, bad_run_number, bad_receipt_sha256, needs_gateway_run, needs_evaluation_run,
  needs_receipt, needs_receiver_run, State, planned, dispatched, running, rejected, completed,
  acknowledged, state_text, state_of, DateTime, text_value, is_request_id, is_repository, is_sha256,
  is_none, is_positive, is_one, fields_match, check_state, validate,
}
use jpapt_v2_2_inspection.Lifecycle.Events.{
  Texts, run_value, gateway_run, gateway_key, evaluation_key, acknowledged_key, key_of, event_key,
}

-- A value that is there and positive.
abbrev pub Positive : Option Json → Json → Type 0
Positive o v = (o ≡ some v) × (is_positive (some v) ≡ true)

run_value-ok :
    (v : Option Json) (e : LifecycleError)
    → is_none v ≡ false
    → (is_none v || is_positive v) ≡ true
    → (n : Json) × Positive v n × (run_value v e ≡ ok n)
run_value-ok none e h k = cc
run_value-ok (some null) e h k = cc
run_value-ok (some (bool b)) e h k = (bool b, (refl, k), rw k refl)
run_value-ok (some (int n)) e h k = (int n, (refl, k), rw k refl)
run_value-ok (some (real r)) e h k = cc
run_value-ok (some (str s)) e h k = cc
run_value-ok (some (arr xs)) e h k = cc
run_value-ok (some (tuple xs)) e h k = cc
run_value-ok (some (obj fields)) e h k = cc

-- A run number that is null or positive.
abbrev Numbered : String → Fields → Type 0
Numbered key snapshot = (is_none (find key snapshot) || is_positive (find key snapshot)) ≡ true

neither : (a b : Bool) → (a || b) ≡ false → (a ≡ false) × (b ≡ false)
neither true b h = cc
neither false b h = (refl, h)

no_raise : (b : Bool) (e : LifecycleError) → raise_if b e ≡ ok tt → b ≡ false
no_raise true e h = cc
no_raise false e h = refl

module _ (texts : Texts) where
  -- The text of a gateway run: that of its positive number, or `unknown` where there is none.
  pub GatewayRun : Option Json → String → Type 0
  GatewayRun o text =
      ((is_none o ≡ true) × (text ≡ "unknown"))
      ⊎ ((v : Json) × Positive o v × (text ≡ texts.of_json v))

  abbrev pub IsGatewayKey : State → Fields → String → Type 0
  IsGatewayKey state snapshot key =
      (run : String) × GatewayRun (find "gateway_run_id" snapshot) run
      × (key ≡ "gateway-" <> run <> "-" <> state_text state <> "-" <> texts.digest_16 snapshot)

  abbrev pub IsNumberedKey : State → Fields → String → Type 0
  IsNumberedKey state snapshot key =
      (run : Json) × Positive (find "gateway_run_id" snapshot) run
      × (key
          ≡ "gateway-"
            <> texts.of_json run
            <> "-"
            <> state_text state
            <> "-"
            <> texts.digest_16 snapshot)

  abbrev pub IsEvaluationKey : State → Fields → String → Type 0
  IsEvaluationKey state snapshot key =
      (run attempt : Json) × Positive (find "evaluation_run_id" snapshot) run
      × Positive (find "evaluation_run_attempt" snapshot) attempt
      × (key
          ≡ "evaluation-"
            <> texts.of_json run
            <> "-"
            <> texts.of_json attempt
            <> "-"
            <> state_text state
            <> "-"
            <> texts.digest_16 snapshot)

  abbrev pub IsReceiverKey : Fields → String → Type 0
  IsReceiverKey snapshot key =
      (run attempt receiver : Json) × Positive (find "evaluation_run_id" snapshot) run
      × Positive (find "evaluation_run_attempt" snapshot) attempt
      × Positive (find "receiver_run_id" snapshot) receiver
      × (key
          ≡ "evaluation-"
            <> texts.of_json run
            <> "-"
            <> texts.of_json attempt
            <> "-receiver-"
            <> texts.of_json receiver
            <> "-acknowledged-"
            <> texts.digest_16 snapshot)

  -- The key of a snapshot in a state: the numbers of the runs that it names, which are there and
  -- positive, the state, and the digest.
  pub IsKey : State → Fields → String → Type 0
  IsKey planned = IsGatewayKey planned
  IsKey dispatched = IsNumberedKey dispatched
  IsKey rejected = IsNumberedKey rejected
  IsKey running = IsEvaluationKey running
  IsKey completed = IsEvaluationKey completed
  IsKey acknowledged = IsReceiverKey

  -- The code returns a key that has the property.
  abbrev pub Returns : (String → Type 0) → Result LifecycleError String → Type 0
  Returns P r = (key : String) × (r ≡ ok key) × P key

  gateway_run-GatewayRun :
      (o : Option Json) → (is_none o || is_positive o) ≡ true → GatewayRun o (gateway_run texts o)
  unfolding GatewayRun
  gateway_run-GatewayRun none h = inl (refl, refl)
  gateway_run-GatewayRun (some null) h = inl (refl, refl)
  gateway_run-GatewayRun (some (bool true)) h = inr (bool true, (refl, refl), refl)
  gateway_run-GatewayRun (some (bool false)) h = cc
  gateway_run-GatewayRun (some (int (pos zero))) h = cc
  gateway_run-GatewayRun (some (int (pos (suc n)))) h = inr (int (pos (suc n)), (refl, h), refl)
  gateway_run-GatewayRun (some (int (negsuc n))) h = cc
  gateway_run-GatewayRun (some (real r)) h = cc
  gateway_run-GatewayRun (some (str s)) h = cc
  gateway_run-GatewayRun (some (arr xs)) h = cc
  gateway_run-GatewayRun (some (tuple xs)) h = cc
  gateway_run-GatewayRun (some (obj fields)) h = cc

  gateway_key-IsNumberedKey :
      (state : State) (snapshot : Fields)
      → Numbered "gateway_run_id" snapshot
      → is_none (find "gateway_run_id" snapshot) ≡ false
      → IsNumberedKey state snapshot (gateway_key texts state snapshot)
  unfolding GatewayRun
  gateway_key-IsNumberedKey state snapshot gateway there =
      elim (gateway_run-GatewayRun (find "gateway_run_id" snapshot) gateway) [
        | inl h ↦ let e = h.0 in cc
        | inr (v, positive, e) ↦ (
          v,
          positive,
          ap
              (λ run.
                "gateway-" <> run <> "-" <> state_text state <> "-" <> texts.digest_16 snapshot)
              e,
        )
      ]

  evaluation_key-Returns :
      (state : State) (snapshot : Fields)
      → Numbered "evaluation_run_id" snapshot
      → Numbered "evaluation_run_attempt" snapshot
      → (is_none (find "evaluation_run_id" snapshot)
          || is_none (find "evaluation_run_attempt" snapshot))
        ≡ false
      → Returns (IsEvaluationKey state snapshot) (evaluation_key texts state snapshot)
  unfolding evaluation_key
  evaluation_key-Returns state snapshot run attempt there =
      let (a, b) = neither _ _ there in
      let (n, p, e) = run_value-ok (find "evaluation_run_id" snapshot) needs_evaluation_run a run in
      let (m, q, f) =
        run_value-ok (find "evaluation_run_attempt" snapshot) needs_evaluation_run b attempt in
      (
        _,
        >>=-ok (run_value (find "evaluation_run_id" snapshot) needs_evaluation_run) _ e (
            >>=-ok (run_value (find "evaluation_run_attempt" snapshot) needs_evaluation_run) _ f
              refl),
        (n, m, p, q, refl),
      )

  acknowledged_key-Returns :
      (snapshot : Fields)
      → Numbered "evaluation_run_id" snapshot
      → Numbered "evaluation_run_attempt" snapshot
      → Numbered "receiver_run_id" snapshot
      → (is_none (find "evaluation_run_id" snapshot)
          || is_none (find "evaluation_run_attempt" snapshot))
        ≡ false
      → is_none (find "receiver_run_id" snapshot) ≡ false
      → Returns (IsReceiverKey snapshot) (acknowledged_key texts snapshot)
  unfolding acknowledged_key
  acknowledged_key-Returns snapshot run attempt receiver there received =
      let (a, b) = neither _ _ there in
      let (n, p, e) = run_value-ok (find "evaluation_run_id" snapshot) needs_evaluation_run a run in
      let (m, q, f) =
        run_value-ok (find "evaluation_run_attempt" snapshot) needs_evaluation_run b attempt in
      let (r, t, g) =
        run_value-ok (find "receiver_run_id" snapshot) needs_receiver_run received receiver in
      (
        _,
        >>=-ok (run_value (find "evaluation_run_id" snapshot) needs_evaluation_run) _ e (
            >>=-ok (run_value (find "evaluation_run_attempt" snapshot) needs_evaluation_run) _ f
              (>>=-ok (run_value (find "receiver_run_id" snapshot) needs_receiver_run) _ g refl)),
        (n, m, r, p, q, t, refl),
      )

  key_of-Returns :
      (state : State) (snapshot : Fields)
      → Numbered "gateway_run_id" snapshot
      → Numbered "evaluation_run_id" snapshot
      → Numbered "evaluation_run_attempt" snapshot
      → Numbered "receiver_run_id" snapshot
      → check_state state snapshot ≡ ok tt
      → Returns (IsKey state snapshot) (key_of texts state snapshot)
  unfolding key_of check_state IsKey
  key_of-Returns planned snapshot gateway run attempt receiver h =
      (_, refl, (_, gateway_run-GatewayRun _ gateway, refl))
  key_of-Returns dispatched snapshot gateway run attempt receiver h =
      let (there, _) =
        raise_if-eq-ok (is_none (find "gateway_run_id" snapshot)) needs_gateway_run _ h in
      (_, refl, gateway_key-IsNumberedKey dispatched snapshot gateway there)
  key_of-Returns rejected snapshot gateway run attempt receiver h =
      let (there, _) =
        raise_if-eq-ok (is_none (find "gateway_run_id" snapshot)) needs_gateway_run _ h in
      (_, refl, gateway_key-IsNumberedKey rejected snapshot gateway there)
  key_of-Returns running snapshot gateway run attempt receiver h =
      let (there, _) =
        raise_if-eq-ok
          (is_none (find "evaluation_run_id" snapshot)
            || is_none (find "evaluation_run_attempt" snapshot))
          needs_evaluation_run _ h in
      evaluation_key-Returns running snapshot run attempt there
  key_of-Returns completed snapshot gateway run attempt receiver h =
      let (there, _) =
        raise_if-eq-ok
          (is_none (find "evaluation_run_id" snapshot)
            || is_none (find "evaluation_run_attempt" snapshot))
          needs_evaluation_run _ h in
      evaluation_key-Returns completed snapshot run attempt there
  key_of-Returns acknowledged snapshot gateway run attempt receiver h =
      let (there, h₁) =
        raise_if-eq-ok
          (is_none (find "evaluation_run_id" snapshot)
            || is_none (find "evaluation_run_attempt" snapshot))
          needs_evaluation_run _ h in
      let (_, h₂) = raise_if-eq-ok (is_none (find "receipt_sha256" snapshot)) needs_receipt _ h₁ in
      acknowledged_key-Returns snapshot run attempt receiver there
        (no_raise _ needs_receiver_run h₂)

-- Whatever texts and digests are, a snapshot that passes the validation is in a state and has an event
-- key, which is made of run numbers, the state and the digest: for dispatched and rejected the
-- gateway's run; for running and completed the evaluation's run and attempt; for acknowledged also
-- the receiver's run. These numbers are there and positive. For planned it is the gateway's run, or
-- unknown where that is missing or null.
pub event_key-Returns :
    (from_iso : List ℕ → Option DateTime) (texts : Texts) (snapshot : Fields)
    → validate from_iso snapshot ≡ ok tt
    → (state : State) × (find "state" snapshot ≡ some (str (state_text state)))
      × Returns texts (IsKey texts state snapshot) (event_key texts snapshot)
unfolding validate event_key
event_key-Returns from_iso texts snapshot h =
    let (_, h₁) = ensure-eq-ok (fields_match snapshot) fields_mismatch _ h in
    let (_, h₂) = ensure-eq-ok (is_one (find "schema_version" snapshot)) bad_schema_version _ h₁ in
    let (_, h₃) =
      ensure-eq-ok (text_value is_request_id (find "request_id" snapshot)) bad_request_id _ h₂ in
    let execution = find "request_execution_id" snapshot in
    let (_, h₄) =
      ensure-eq-ok (is_none execution || text_value is_request_id execution) bad_execution_id _
        h₃ in
    let (state, named, h₅) = require-eq-ok (state_of (find "state" snapshot)) bad_state _ h₄ in
    let (_, h₆) =
      ensure-eq-ok (text_value is_repository (find "source_repository" snapshot)) bad_repository _
        h₅ in
    let (_, h₇) =
      ensure-eq-ok (text_value is_repository (find "receipt_repository" snapshot)) bad_repository _
        h₆ in
    let (_, h₈) =
      ensure-eq-ok (text_value is_repository (find "orchestrator_repository" snapshot))
        bad_repository _ h₇ in
    let (gateway, h₉) = ensure-eq-ok (numbered "gateway_run_id") bad_run_number _ h₈ in
    let (run, h₁₀) = ensure-eq-ok (numbered "evaluation_run_id") bad_run_number _ h₉ in
    let (attempt, h₁₁) = ensure-eq-ok (numbered "evaluation_run_attempt") bad_run_number _ h₁₀ in
    let (receiver, h₁₂) = ensure-eq-ok (numbered "receiver_run_id") bad_run_number _ h₁₁ in
    let receipt = find "receipt_sha256" snapshot in
    let (_, h₁₃) =
      ensure-eq-ok (is_none receipt || text_value is_sha256 receipt) bad_receipt_sha256 _ h₁₂ in
    let (_, checked, _) = >>=-eq-ok (check_state state snapshot) _ h₁₃ in
    let (key, made, is_key) =
      key_of-Returns texts state snapshot gateway run attempt receiver checked in
    (
      state,
      state_named (find "state" snapshot) state named,
      (
        key,
        >>=-ok (require (state_of (find "state" snapshot)) bad_state) _
            (ap (λ o. require o bad_state) named) made,
        is_key,
      ),
    )
  where
    numbered : String → Bool
    numbered key = is_none (find key snapshot) || is_positive (find key snapshot)
