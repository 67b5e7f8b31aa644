-- ===== src/Lifecycle/Tests.antt =====
-- Two snapshots of one request.
use jpapt_v2_2_inspection.Base.{
  ℕ, ◌≡◌, refl, String, true, false, Option, none, some, List, [], ◌∷◌, ok, map, All,
}
use jpapt_v2_2_inspection.Base.Int.{pos}
use jpapt_v2_2_inspection.Base.Json.{null, int, str, Fields, end, field, keys, find}
use jpapt_v2_2_inspection.Base.Sorting.{sort, insert}
use jpapt_v2_2_inspection.Base.Text.{codes}
use jpapt_v2_2_inspection.Lifecycle.Snapshot.{
  State, state_text, DateTime, validate, repository_from,
}
use jpapt_v2_2_inspection.Lifecycle.Events.{Texts, event_key}
use jpapt_v2_2_inspection.Lifecycle.Accepted.{IsKey, Returns, event_key-Returns}
use jpapt_v2_2_inspection.Lifecycle.Current.{Candidate, Source, reduce, should_write}
use jpapt_v2_2_inspection.Lifecycle.Choice.{
  IsCurrent, IsOfRequest, place_of, reduce-IsCurrent, reduce-should_write,
}

-- Two dates are known: one that starts with 2, and one that starts with 1.
abbrev pub from_iso : List ℕ → Option DateTime
from_iso [] = none
from_iso (c ∷ cs) = some (record { instant = pos c; has_offset = true })

abbrev texts : Texts
texts = record { of_json = λ v. "7"; digest_16 = λ s. "d" }

abbrev pub snapshot : String → String → Fields
snapshot state updated_at = field "schema_version" (int (pos 1)) (
    field "request_id" (str "q-1") (
      field "state" (str state) (
        field "source_repository" (str "o/a") (
          field "receipt_repository" (str "o/b") (
            field "orchestrator_repository" (str "o/c") (
              field "gateway_run_id" (int (pos 5)) (
                field "evaluation_run_id" (int (pos 7)) (
                  field "evaluation_run_attempt" (int (pos 1)) (
                    field "receipt_sha256" null (
                      field "receiver_run_id" null
                        (field "updated_at" (str updated_at) end)))))))))))

validate_run : validate from_iso (snapshot "running" "2Z") ≡ ok tt
unfolding validate keys codes repository_from
validate_run = refl

event_key-Returns_example :
    (state : State) × (find "state" (snapshot "running" "2Z") ≡ some (str (state_text state)))
    × Returns texts
        (IsKey texts state (snapshot "running" "2Z"))
        (event_key texts (snapshot "running" "2Z"))
event_key-Returns_example = event_key-Returns from_iso texts (snapshot "running" "2Z") validate_run

event_key_run : event_key texts (snapshot "running" "2Z") ≡ ok "evaluation-7-7-running-d"
unfolding event_key
event_key_run = refl

abbrev sources : List Source
sources =
    ("issue", "a.json", snapshot "completed" "1Z")
    ∷ ("bucket", "b.json", snapshot "running" "2Z")
    ∷ []

abbrev older : Candidate
older = record {
  observed_at = pos 49;
  rank = 4;
  source = "issue";
  path = "a.json";
  snapshot = snapshot "completed" "1Z";
}

abbrev newer : Candidate
newer = record {
  observed_at = pos 50;
  rank = 2;
  source = "bucket";
  path = "b.json";
  snapshot = snapshot "running" "2Z";
}

reduce_run : reduce from_iso "q-1" "" sources ≡ ok newer
unfolding reduce sort insert codes
reduce_run = refl

reduce-IsCurrent_example :
    (candidates : List Candidate) × (map place_of candidates ≡ sources)
    × All (IsOfRequest from_iso "q-1" "") candidates
    × IsCurrent candidates newer
reduce-IsCurrent_example = reduce-IsCurrent from_iso "q-1" "" sources newer reduce_run

should_write_run :
    should_write from_iso (snapshot "running" "2Z") (snapshot "running" "1Z") false ≡ ok false
unfolding should_write codes
should_write_run = refl

abbrev kept : Source
kept = ("issue", "a.json", snapshot "running" "2Z")

abbrev late : Source
late = ("bucket", "b.json", snapshot "running" "1Z")

kept_first :
    reduce from_iso "q-1" "" (kept ∷ late ∷ [])
    ≡ ok (record newer { source = "issue"; path = "a.json" })
unfolding reduce sort insert codes
kept_first = refl

late_first :
    reduce from_iso "q-1" "" (late ∷ kept ∷ [])
    ≡ ok (record newer { source = "issue"; path = "a.json" })
unfolding reduce sort insert codes
late_first = refl

reduce-should_write_example :
    (newer.snapshot ≡ snapshot "running" "2Z") × (newer.snapshot ≡ snapshot "running" "2Z")
reduce-should_write_example =
    reduce-should_write from_iso "q-1" "" kept late false
      (record newer { source = "issue"; path = "a.json" })
      (record newer { source = "issue"; path = "a.json" }) should_write_run kept_first late_first
