-- ===== src/Lifecycle/Timeline/Grouped.antt =====
-- What the events of a timeline are, in terms of the files that
-- scripts/ci/build-candidate-request-timeline.py reads.
use jpapt_v2_2_inspection.Base.{
  ℕ, ◌≡◌, ◌≢◌, refl, sym, ap, subst, ◌∙◌, String, Bool, true, false, Option, none, some, inl, inr,
  List, [], ◌∷◌, ◌++◌, append-nil, append_assoc, ok, err, ok-injective, >>=-eq-ok, ensure-eq-ok,
  require-eq-ok, any, All, Bool-cases, arith, str_eq, eq_iff, if◌then◌else◌, ◌||◌,
}
use jpapt_v2_2_inspection.Base.Distinct.{Distinct, str_eq-sym}
use jpapt_v2_2_inspection.Base.Sorting.{sort, Sorted, sort-Sorted, sort-All}
use jpapt_v2_2_inspection.Base.Json.{Fields}
use jpapt_v2_2_inspection.Lifecycle.Snapshot.{
  bad_request_id, bad_execution_id, unreadable, DateTime, is_request_id,
}
use jpapt_v2_2_inspection.Lifecycle.Timeline.{
  Digests, parse_candidate, Observation, in_order, add_observation,
}
use jpapt_v2_2_inspection.Lifecycle.Timeline.Build.{
  observation_sha256, load_snapshot, timeline_of, collect, assemble, assemble_sorted,
}
use jpapt_v2_2_inspection.Lifecycle.Timeline.Sources.{str_eq_refl, sort-Distinct, any-sort}
use jpapt_v2_2_inspection.Lifecycle.Timeline.Observed.{
  keys_of, IsObserved, observe-IsKeyed, collect-IsObserved,
}
use jpapt_v2_2_inspection.Lifecycle.Timeline.Valid.{in_order-order}
use jpapt_v2_2_inspection.Lifecycle.Timeline.Written.{IsTimelineOf, timeline_of-IsTimelineOf}

-- The sources collected under a digest.
abbrev sources_at : String → List Observation → List String
sources_at s [] = []
sources_at s (o ∷ rest) = if str_eq o.key.digest s then o.sources else sources_at s rest

sources_at-add :
    (s source : String) (new : Observation) (os : List Observation)
    → sources_at s (add_observation new source os)
      ≡ (if str_eq new.key.digest s then sources_at s os ++ source ∷ [] else sources_at s os)
unfolding add_observation
sources_at-add s source new [] = refl
sources_at-add s source new (o ∷ rest) = ground (
  arith,
  eq_iff o.key.digest new.key.digest,
  eq_iff o.key.digest s,
  eq_iff new.key.digest s,
  sources_at-add s source new rest,
)

absent-sources_at :
    (s : String) (os : List Observation)
    → any (str_eq s) (keys_of os) ≡ false
    → sources_at s os ≡ []
absent-sources_at s [] h = refl
absent-sources_at s (o ∷ os) h =
    let (apart, rest) : (str_eq s o.key.digest ≡ false) × (any (str_eq s) (keys_of os) ≡ false) =
      ground arith in
    rw (str_eq-sym s o.key.digest apart) (absent-sources_at s os rest)

-- Under the digest of an observation stand its own sources.
own_sources :
    (os : List Observation)
    → Distinct (keys_of os)
    → All (λ o. sources_at o.key.digest os ≡ o.sources) os
own_sources [] d = tt
own_sources (o ∷ os) d = (rw (str_eq_refl o.key.digest) refl, under os d.0 (own_sources os d.1))
  where
    under :
        (ps : List Observation)
        → any (str_eq o.key.digest) (keys_of ps) ≡ false
        → All (λ p. sources_at p.key.digest os ≡ p.sources) ps
        → All (λ p. sources_at p.key.digest (o ∷ os) ≡ p.sources) ps
    under [] a h = tt
    under (p ∷ ps) a h =
        let (apart, rest) : (str_eq o.key.digest p.key.digest ≡ false)
            × (any (str_eq o.key.digest) (keys_of ps) ≡ false) =
          ground arith in
        (rw apart h.0, under ps rest h.1)

module _ (from_iso : List ℕ → Option DateTime) (digests : Digests)
    (load_json_object : String → Option Fields) where
  -- The source that a candidate names, if its file holds a snapshot with the digest.
  abbrev pub reports_of : String → Option Fields → String → List String
  reports_of source none s = []
  reports_of source (some value) s =
      if str_eq (observation_sha256 from_iso digests value) s then source ∷ [] else []

  abbrev pub report : String → String → List String
  report candidate s = elim (parse_candidate candidate) [
    | err e ↦ []
    | ok (source, path) ↦ reports_of source (load_json_object path) s
  ]

  -- The sources that hold the snapshot with a digest, one after another.
  abbrev pub reports : List String → String → List String
  reports [] s = []
  reports (candidate ∷ rest) s = report candidate s ++ reports rest s

  report_lem :
      (candidate source path s : String) (value : Fields)
      → parse_candidate candidate ≡ ok (source, path)
      → load_json_object path ≡ some value
      → report candidate s
        ≡ (if str_eq (observation_sha256 from_iso digests value) s then source ∷ [] else [])
  report_lem candidate source path s value parsed read =
      subst
        (λ r.
          elim r [ err e ↦ [] | ok (a, p) ↦ reports_of a (load_json_object p) s ]
          ≡ (if str_eq (observation_sha256 from_iso digests value) s then source ∷ [] else []))
        (sym parsed)
        (subst
          (λ o.
            reports_of source o s
            ≡ (if str_eq (observation_sha256 from_iso digests value) s then source ∷ [] else []))
          (sym read) refl)

  module _ (request_id execution : String) where
    regroup :
        (b : Bool) (held reported rest : List String) (source : String)
        → reported ≡ (if b then source ∷ [] else [])
        → (if b then held ++ source ∷ [] else held) ++ rest ≡ held ++ (reported ++ rest)
    regroup true held reported rest source e =
        append_assoc held (source ∷ []) rest ∙ ap (λ l. held ++ (l ++ rest)) (sym e)
    regroup false held reported rest source e = ap (λ l. held ++ (l ++ rest)) (sym e)

    collect-reports :
        (s : String) (candidates : List String) (before after : List Observation)
        → collect from_iso digests load_json_object request_id execution candidates before
          ≡ ok after
        → sources_at s after ≡ sources_at s before ++ reports candidates s
    unfolding collect load_snapshot
    collect-reports s [] before after h =
        ap (sources_at s) (sym (ok-injective h)) ∙ sym (append-nil (sources_at s before))
    collect-reports s (candidate ∷ rest) before after h =
        let ((source, path), parsed, h₁) = >>=-eq-ok (parse_candidate candidate) _ h in
        let (new, loaded, h₂) =
          >>=-eq-ok (load_snapshot from_iso digests load_json_object request_id execution path) _
            h₁ in
        let (value, read, observed) = require-eq-ok (load_json_object path) unreadable _ loaded in
        let (keyed, same) =
          observe-IsKeyed from_iso digests request_id execution load_json_object value new
            observed in
        let digest : observation_sha256 from_iso digests value ≡ new.key.digest =
          ap (observation_sha256 from_iso digests) (sym same) ∙ keyed.digested in
        collect-reports s rest (add_observation new source before) after h₂
        ∙ ap (λ l. l ++ reports rest s) (sources_at-add s source new before)
        ∙ regroup (str_eq new.key.digest s) (sources_at s before) (report candidate s)
            (reports rest s) source
            (report_lem candidate source path s value parsed read
              ∙ ap (λ d. if str_eq d s then source ∷ [] else []) digest)

    -- The observations of a timeline: in order, each under its own digest, with the sources that
    -- reported it, and with one for each digest that was reported.
    pub record IsGrouping (candidates : List String) (os : List Observation) : Type 0 where
      pub observed : All (IsObserved from_iso digests request_id execution) os
      pub sorted : Sorted in_order os
      pub apart : Distinct (keys_of os)
      pub grouped : All (λ o. o.sources ≡ reports candidates o.key.digest) os
      pub complete : (s : String) → reports candidates s ≢ [] → any (str_eq s) (keys_of os) ≡ true

    -- The timeline that `build` assembles holds the request's id and key, and one event for each digest that
    -- some candidate reported, and no other event, with their number; the events are ordered by time,
    -- rank of the state and digest, and an event holds its digest, a snapshot of the request that has
    -- the digest, and in order, each once, the sources that reported it.
    pub assemble-IsGrouping :
        (candidates : List String) (timeline : Fields)
        → assemble from_iso digests load_json_object request_id execution candidates ≡ ok timeline
        → (first : Observation) × (rest : List Observation) × (timeline
            ≡ timeline_of from_iso digests request_id execution first rest)
          × IsTimelineOf from_iso digests request_id (first ∷ rest) timeline
          × IsGrouping candidates (first ∷ rest)
    unfolding assemble
    assemble-IsGrouping candidates timeline h =
        let (_, h₁) = ensure-eq-ok (is_request_id request_id) bad_request_id _ h in
        let (_, h₂) =
          ensure-eq-ok (str_eq execution "" || is_request_id execution) bad_execution_id _ h₁ in
        let (os, collected, h₃) =
          >>=-eq-ok (collect from_iso digests load_json_object request_id execution candidates []) _
            h₂ in
        let (observed, apart) =
          collect-IsObserved from_iso digests request_id execution load_json_object candidates [] os
            collected tt tt in
        let given = λ (s : String). collect-reports s candidates [] os collected in
        of_sorted (sort in_order os) h₃ (record {
          observed = sort-All in_order _ os observed;
          sorted = sort-Sorted in_order-order os;
          apart = sort-Distinct in_order (λ o. o.key.digest) os apart;
          grouped = sort-All in_order _ os (of_own os given os (own_sources os apart));
          complete =
              λ s there. any-sort in_order (λ o. o.key.digest) s os ∙ present s os (given s) there;
        })
      where
        of_own :
            (os : List Observation)
            → ((s : String) → sources_at s os ≡ reports candidates s)
            → (ps : List Observation) → All (λ p. sources_at p.key.digest os ≡ p.sources) ps
            → All (λ p. p.sources ≡ reports candidates p.key.digest) ps
        of_own os given [] h = tt
        of_own os given (p ∷ ps) h = (sym h.0 ∙ given p.key.digest, of_own os given ps h.1)

        present :
            (s : String) (os : List Observation)
            → sources_at s os ≡ reports candidates s
            → reports candidates s ≢ []
            → any (str_eq s) (keys_of os) ≡ true
        present s os given there = elim (Bool-cases (any (str_eq s) (keys_of os))) [
          | inl e ↦ e
          | inr e ↦ absurd (there (sym given ∙ absent-sources_at s os e))
        ]

        of_sorted :
            (os : List Observation)
            → assemble_sorted from_iso digests load_json_object request_id execution os
              ≡ ok timeline
            → IsGrouping candidates os
            → (first : Observation) × (rest : List Observation) × (timeline
                ≡ timeline_of from_iso digests request_id execution first rest)
              × IsTimelineOf from_iso digests request_id (first ∷ rest) timeline
              × IsGrouping candidates (first ∷ rest)
        of_sorted [] e g = cc
        of_sorted (o ∷ os) e g =
            let written = sym (ok-injective e) in
            (
              o,
              os,
              written,
              subst (IsTimelineOf from_iso digests request_id (o ∷ os)) (ok-injective e)
                  (timeline_of-IsTimelineOf from_iso digests request_id execution o os),
              g,
            )
