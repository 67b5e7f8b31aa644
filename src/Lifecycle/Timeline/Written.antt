-- ===== src/Lifecycle/Timeline/Written.antt =====
-- What the dictionary of a timeline holds, which
-- scripts/ci/build-candidate-request-timeline.py writes.
use jpapt_v2_2_inspection.Base.{
  ℕ, ◌≡◌, refl, sym, ap, ◌∙◌, String, true, false, Option, some, inl, inr, List, [], ◌∷◌, length,
  any, Bool-cases, str_eq,
}
use jpapt_v2_2_inspection.Base.Int.{pos}
use jpapt_v2_2_inspection.Base.Distinct.{Distinct, distinct, any-distinct as any_of_distinct}
use jpapt_v2_2_inspection.Base.Sorting.{Sorted, sort-Sorted}
use jpapt_v2_2_inspection.Base.Text.{leb_text, leb_text-order}
use jpapt_v2_2_inspection.Base.Json.{Items, Fields, str, int, arr, obj, nil, cons, find}
use jpapt_v2_2_inspection.Lifecycle.Snapshot.{DateTime}
use jpapt_v2_2_inspection.Lifecycle.Timeline.{
  Digests, Observation, texts_json, sorted_set, event_of, events_of,
}
use jpapt_v2_2_inspection.Lifecycle.Timeline.Build.{request_key, timeline_of}
use jpapt_v2_2_inspection.Lifecycle.Timeline.Sources.{
  any-distinct, any-sort, map-id, sorted_set-Distinct,
}

-- The texts in order, each once, that a list of texts holds.
pub record IsSetOf (sources texts : List String) : Type 0 where
  pub sorted : Sorted leb_text texts
  pub apart : Distinct texts
  pub same : (s : String) → any (str_eq s) texts ≡ any (str_eq s) sources

distinct-same : (s : String) (xs : List String) → any (str_eq s) (distinct xs) ≡ any (str_eq s) xs
distinct-same s xs = elim (Bool-cases (any (str_eq s) (distinct xs))) [
  | inr e ↦ e ∙ sym (any_of_distinct s xs e)
  | inl e ↦ elim (Bool-cases (any (str_eq s) xs)) [
    | inl k ↦ e ∙ sym k
    | inr k ↦ absurd (apart (sym e ∙ any-distinct s xs k))
  ]
]
  where
    apart : true ≡ false → ⊥
    apart k = cc

sorted_set-same :
    (s : String) (xs : List String) → any (str_eq s) (sorted_set xs) ≡ any (str_eq s) xs
sorted_set-same s xs =
    ap (any (str_eq s)) (sym (map-id (sorted_set xs)))
    ∙ any-sort leb_text (λ t. t) s (distinct xs)
    ∙ ap (any (str_eq s)) (map-id (distinct xs))
    ∙ distinct-same s xs

sorted_set-IsSetOf : (xs : List String) → IsSetOf xs (sorted_set xs)
sorted_set-IsSetOf xs = record {
  sorted = sort-Sorted leb_text-order (distinct xs);
  apart = sorted_set-Distinct xs;
  same = λ s. sorted_set-same s xs;
}

-- The items of an array are these texts.
abbrev pub AreTexts : Items → List String → Type 0
AreTexts nil [] = Unit
AreTexts (cons v rest) (t ∷ texts) = (v ≡ str t) × AreTexts rest texts
AreTexts nil (t ∷ texts) = ⊥
AreTexts (cons v rest) [] = ⊥

texts_json-AreTexts : (texts : List String) → AreTexts (texts_json texts) texts
unfolding texts_json
texts_json-AreTexts [] = tt
texts_json-AreTexts (t ∷ texts) = (refl, texts_json-AreTexts texts)

-- An event: the digest of an observation, its snapshot, and its sources in order, each once.
pub record IsEventOf (o : Observation) (event : Fields) : Type 0 where
  pub digest : find "observation_sha256" event ≡ some (str o.key.digest)
  pub snapshot : find "snapshot" event ≡ some (obj o.snapshot)
  pub items : Items
  pub texts : List String
  pub sources : find "sources" event ≡ some (arr items)
  pub read : AreTexts items texts
  pub set : IsSetOf o.sources texts

abbrev pub AreEvents : Items → List Observation → Type 0
AreEvents nil [] = Unit
AreEvents (cons v rest) (o ∷ os) =
    ((event : Fields) × (v ≡ obj event) × IsEventOf o event) × AreEvents rest os
AreEvents nil (o ∷ os) = ⊥
AreEvents (cons v rest) [] = ⊥

event_of-IsEventOf :
    (o : Observation) → (event : Fields) × (event_of o ≡ obj event) × IsEventOf o event
unfolding event_of find
event_of-IsEventOf o = (
  _,
  refl,
  record {
    digest = refl;
    snapshot = refl;
    items = texts_json (sorted_set o.sources);
    texts = sorted_set o.sources;
    sources = refl;
    read = texts_json-AreTexts (sorted_set o.sources);
    set = sorted_set-IsSetOf o.sources;
  },
)

events_of-AreEvents : (os : List Observation) → AreEvents (events_of os) os
unfolding events_of
events_of-AreEvents [] = tt
events_of-AreEvents (o ∷ os) = (event_of-IsEventOf o, events_of-AreEvents os)

module _ (from_iso : List ℕ → Option DateTime) (digests : Digests) where
  -- The dictionary of a request's observations.
  pub record IsTimelineOf (request_id : String) (os : List Observation) (timeline : Fields)
      : Type 0 where
    pub request : find "request_id" timeline ≡ some (str request_id)
    pub key : find "request_key" timeline ≡ some (str (request_key from_iso digests request_id))
    pub count : find "event_count" timeline ≡ some (int (pos (length os)))
    pub items : Items
    pub events : find "events" timeline ≡ some (arr items)
    pub written : AreEvents items os

  pub timeline_of-IsTimelineOf :
      (request_id execution : String) (first : Observation) (rest : List Observation)
      → IsTimelineOf request_id
          (first ∷ rest)
          (timeline_of from_iso digests request_id execution first rest)
  unfolding timeline_of find
  timeline_of-IsTimelineOf request_id execution first rest = record {
    request = refl;
    key = refl;
    count = refl;
    items = events_of (first ∷ rest);
    events = refl;
    written = events_of-AreEvents (first ∷ rest);
  }
