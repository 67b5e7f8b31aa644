-- ===== src/Lifecycle/Timeline/Assembled.antt =====
-- The timeline that scripts/ci/build-candidate-request-timeline.py assembles passes its validation.
use jpapt_v2_2_inspection.Base.{
  ℕ, ◌≡◌, refl, sym, subst, String, Bool, true, false, ◌||◌, Option, none, some, inl, inr, List, [],
  ◌∷◌, ok, ok-injective, ensure, >>=-ok, >>=-eq-ok, ensure-eq-ok, length, All, Bool-cases, str_eq,
  eq_iff,
}
use jpapt_v2_2_inspection.Base.Int.{pos}
use jpapt_v2_2_inspection.Base.Distinct.{Distinct}
use jpapt_v2_2_inspection.Base.Sorting.{sort, Sorted, sort-Sorted, sort-All}
use jpapt_v2_2_inspection.Base.Json.{int, Fields, find, keys}
use jpapt_v2_2_inspection.Lifecycle.Snapshot.{
  fields_mismatch, bad_request_id, bad_execution_id, DateTime, is_request_id, is_sha256,
}
use jpapt_v2_2_inspection.Lifecycle.Timeline.{
  Digests, Observation, in_order, events_of, last_state, timeline_fields, has_fields,
}
use jpapt_v2_2_inspection.Lifecycle.Timeline.Build.{
  execution_of, request_key, check_identity, check_events, check_all, validate_timeline,
  timeline_of, collect, assemble, assemble_sorted, build,
}
use jpapt_v2_2_inspection.Lifecycle.Timeline.Sources.{str_eq_refl, sort-Distinct}
use jpapt_v2_2_inspection.Lifecycle.Timeline.Observed.{keys_of, IsObserved, collect-IsObserved}
use jpapt_v2_2_inspection.Lifecycle.Timeline.Valid.{
  in_order-order, same_int, request_key-valid, check_events-ok, length-events_of, final-events_of,
  last_state_same,
}

module _ (from_iso : List ℕ → Option DateTime) (digests : Digests)
    (hex : (text : String) → is_sha256 (digests.hexdigest text) ≡ true)
    (request_id execution : String) where
  -- Observations that can stand in a timeline in this order.
  abbrev Ready : List Observation → Type 0
  Ready os =
      All (IsObserved from_iso digests request_id execution) os
      × Sorted in_order os
      × Distinct (keys_of os)

  check_all-ok :
      (asked : String) (value : Fields) (o : Observation) (os : List Observation)
      → asked ≡ execution
      → Ready (o ∷ os)
      → find "event_count" value ≡ some (int (pos (length (o ∷ os))))
      → find "current_state" value ≡ some (last_state o os)
      → check_all from_iso digests request_id asked value (events_of (o ∷ os)) ≡ ok tt
  unfolding check_all events_of
  check_all-ok asked value o os same_asked (observed, sorted, apart) counted current =
      let checked =
        check_events-ok from_iso digests hex request_id execution (o ∷ os) [] none observed sorted
          apart (all_new (o ∷ os)) (all_new (o ∷ os)) in
      let counts = length-events_of from_iso digests hex request_id execution os in
      let finals = final-events_of from_iso digests hex request_id execution o os in
      let same = last_state_same from_iso digests hex request_id execution o os observed in
      subst (λ a. check_all from_iso digests request_id a value (events_of (o ∷ os)) ≡ ok tt)
        (sym same_asked)
        (rw (counted, current, counts, same_int (length (o ∷ os)))
          (>>=-ok (check_events from_iso digests request_id execution [] none (events_of (o ∷ os)))
            _ checked (rw (finals, same) refl)))
    where
      all_new : (ps : List Observation) → All (λ p. ◌≡◌ {A = Bool} false false) ps
      all_new [] = tt
      all_new (p ∷ ps) = (refl, all_new ps)

  fields-ok :
      (o : Observation) (os : List Observation)
      → ensure
          (has_fields timeline_fields
            ("request_execution_id" ∷ [])
            (timeline_of from_iso digests request_id execution o os))
          fields_mismatch
        ≡ ok tt
  unfolding timeline_of has_fields keys
  fields-ok o os = elim (Bool-cases (str_eq execution "")) [ inl e ↦ rw e refl | inr e ↦ rw e refl ]

  identity-ok :
      (o : Observation) (os : List Observation)
      → is_request_id request_id ≡ true
      → (str_eq execution "" || is_request_id execution) ≡ true
      → check_identity from_iso digests (timeline_of from_iso digests request_id execution o os)
        ≡ ok request_id
  unfolding timeline_of check_identity find
  identity-ok o os named asked =
      let keyed = request_key-valid from_iso digests hex request_id in
      let same_key = str_eq_refl (request_key from_iso digests request_id) in
      elim (Bool-cases (str_eq execution "")) [
        | inl e ↦ rw (e, named, keyed, same_key) refl
        | inr e ↦ let asked' = rw e at asked in rw (e, named, keyed, same_key, asked') refl
      ]

  validate_timeline-ok :
      (o : Observation) (os : List Observation)
      → Ready (o ∷ os)
      → is_request_id request_id ≡ true
      → (str_eq execution "" || is_request_id execution) ≡ true
      → validate_timeline from_iso digests (timeline_of from_iso digests request_id execution o os)
        ≡ ok tt
  unfolding validate_timeline timeline_of find
  validate_timeline-ok o os ready named asked =
      >>=-ok
        (ensure (has_fields timeline_fields ("request_execution_id" ∷ []) timeline) fields_mismatch)
        _ (fields-ok o os)
        (>>=-ok (check_identity from_iso digests timeline) _ (identity-ok o os named asked) (
          check_all-ok (execution_of (find "request_execution_id" timeline)) timeline o os
            execution_kept ready refl refl))
    where
      timeline : Fields
      timeline = timeline_of from_iso digests request_id execution o os

      execution_kept : execution_of (find "request_execution_id" timeline) ≡ execution
      execution_kept = elim (Bool-cases (str_eq execution "")) [
        | inl e ↦ rw e (sym ((eq_iff execution "").0 e))
        | inr e ↦ rw e refl
      ]

  -- Whatever the files hold, if `hexdigest` returns 64 lower-case hexadecimal digits: a timeline that
  -- `build` assembles passes the validation that `build` ends with, so `build` returns it.
  pub assemble-validate_timeline :
      (load_json_object : String → Option Fields) (candidates : List String) (timeline : Fields)
      → assemble from_iso digests load_json_object request_id execution candidates ≡ ok timeline
      → (validate_timeline from_iso digests timeline ≡ ok tt)
        × (build from_iso digests load_json_object request_id execution candidates ≡ ok timeline)
  unfolding build assemble
  assemble-validate_timeline load candidates timeline h =
      let (named, h₁) = ensure-eq-ok (is_request_id request_id) bad_request_id _ h in
      let (asked, h₂) =
        ensure-eq-ok (str_eq execution "" || is_request_id execution) bad_execution_id _ h₁ in
      let (observed, collected, h₃) =
        >>=-eq-ok (collect from_iso digests load request_id execution candidates []) _ h₂ in
      let (all_observed, apart) =
        collect-IsObserved from_iso digests request_id execution load candidates [] observed
          collected tt tt in
      let ready : Ready (sort in_order observed) = (
        sort-All in_order _ observed all_observed,
        sort-Sorted in_order-order observed,
        sort-Distinct in_order (λ o. o.key.digest) observed apart,
      ) in
      let valid = of_sorted (sort in_order observed) named asked ready h₃ in
      (
        valid,
        >>=-ok (assemble from_iso digests load request_id execution candidates) _ h
            (>>=-ok (validate_timeline from_iso digests timeline) _ valid refl),
      )
    where
      of_sorted :
          (os : List Observation)
          → is_request_id request_id ≡ true
          → (str_eq execution "" || is_request_id execution) ≡ true
          → Ready os
          → assemble_sorted from_iso digests load request_id execution os ≡ ok timeline
          → validate_timeline from_iso digests timeline ≡ ok tt
      of_sorted [] named asked ready e = cc
      of_sorted (o ∷ os) named asked ready e =
          subst (λ t. validate_timeline from_iso digests t ≡ ok tt) (ok-injective e)
            (validate_timeline-ok o os ready named asked)
