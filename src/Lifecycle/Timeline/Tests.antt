-- ===== src/Lifecycle/Timeline/Tests.antt =====
-- The timeline of three candidates, two of which hold the same snapshot.
use jpapt_v2_2_inspection.Base.{
  ◌≡◌, refl, String, true, Option, none, some, inl, inr, List, [], ◌∷◌, ok, str_eq, Bool-cases,
  if◌then◌else◌,
}
use jpapt_v2_2_inspection.Base.Int.{pos}
use jpapt_v2_2_inspection.Base.Distinct.{distinct}
use jpapt_v2_2_inspection.Base.Sorting.{sort, insert}
use jpapt_v2_2_inspection.Base.Text.{codes, leb_text}
use jpapt_v2_2_inspection.Base.Json.{Json, str, Fields, find}
use jpapt_v2_2_inspection.Lifecycle.Snapshot.{is_sha256}
use jpapt_v2_2_inspection.Lifecycle.Tests.{from_iso, snapshot}
use jpapt_v2_2_inspection.Lifecycle.Timeline.{Digests, Observation, texts_json}
use jpapt_v2_2_inspection.Lifecycle.Timeline.Build.{timeline_of, assemble, build, validate_timeline}
use jpapt_v2_2_inspection.Lifecycle.Timeline.Assembled.{assemble-validate_timeline}
use jpapt_v2_2_inspection.Lifecycle.Timeline.Written.{IsTimelineOf}
use jpapt_v2_2_inspection.Lifecycle.Timeline.Grouped.{IsGrouping, assemble-IsGrouping}

abbrev zeros : String
zeros = "0000000000000000000000000000000000000000000000000000000000000000"

abbrev ones : String
ones = "1111111111111111111111111111111111111111111111111111111111111111"

abbrev state_text_of : Option Json → String
state_text_of (some (str s)) = s
state_text_of _ = ""

-- Two digests, by the state of a snapshot.
abbrev digests : Digests
digests = record {
  hexdigest = λ text. if str_eq text "running" then zeros else ones;
  canonical = λ value. state_text_of (find "state" value);
}

hex : (text : String) → is_sha256 (digests.hexdigest text) ≡ true
unfolding is_sha256 codes
hex text = elim (Bool-cases (str_eq text "running")) [ inl e ↦ rw e refl | inr e ↦ rw e refl ]

abbrev files : String → Option Fields
files path =
    if str_eq path "a.json"
    then some (snapshot "completed" "2Z")
    else if str_eq path "b.json"
    then some (snapshot "running" "1Z")
    else none

abbrev candidates : List String
candidates = "run=a.json" ∷ "issue=b.json" ∷ "bucket=b.json" ∷ []

abbrev early : Observation
early = record {
  key = record { observed_at = pos 49; rank = 2; digest = zeros };
  snapshot = snapshot "running" "1Z";
  sources = "issue" ∷ "bucket" ∷ [];
}

abbrev late : Observation
late = record {
  key = record { observed_at = pos 50; rank = 4; digest = ones };
  snapshot = snapshot "completed" "2Z";
  sources = "run" ∷ [];
}

abbrev timeline : Fields
timeline = timeline_of from_iso digests "q-1" "" early (late ∷ [])

assembled : assemble from_iso digests files "q-1" "" candidates ≡ ok timeline
unfolding assemble sort insert codes
assembled = refl

assemble-validate_timeline_example :
    (validate_timeline from_iso digests timeline ≡ ok tt)
    × (build from_iso digests files "q-1" "" candidates ≡ ok timeline)
assemble-validate_timeline_example =
    assemble-validate_timeline from_iso digests hex "q-1" "" files candidates timeline assembled

assemble-IsGrouping_example :
    (first : Observation) × (rest : List Observation) × (timeline
      ≡ timeline_of from_iso digests "q-1" "" first rest)
    × IsTimelineOf from_iso digests "q-1" (first ∷ rest) timeline
    × IsGrouping from_iso digests files "q-1" "" candidates (first ∷ rest)
assemble-IsGrouping_example =
    assemble-IsGrouping from_iso digests files "q-1" "" candidates timeline assembled

-- The sources of the first event, as they are written.
sources_run :
    texts_json (sort leb_text (distinct early.sources)) ≡ texts_json ("bucket" ∷ "issue" ∷ [])
unfolding sort insert distinct leb_text
sources_run = refl
