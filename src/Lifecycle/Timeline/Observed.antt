-- ===== src/Lifecycle/Timeline/Observed.antt =====
-- What scripts/ci/build-candidate-request-timeline.py knows of the observations that it collects.
use jpapt_v2_2_inspection.Base.{
  ℕ, ◌≡◌, ◌≢◌, refl, subst, String, Bool, true, false, not, ◌&&◌, Option, some, inl, inr, List, [],
  ◌∷◌, ◌++◌, map, ok, ok-injective, >>=-eq-ok, ensure-eq-ok, require-eq-ok, any, All, All-append,
  Bool-cases, arith, str_eq,
}
use jpapt_v2_2_inspection.Base.Distinct.{Distinct}
use jpapt_v2_2_inspection.Base.Json.{Fields, find}
use jpapt_v2_2_inspection.Lifecycle.Snapshot.{
  bad_state, request_id_mismatch, execution_id_mismatch, bad_candidate, unreadable, State,
  state_rank, state_of, DateTime, parse_time,
}
use jpapt_v2_2_inspection.Lifecycle.Current.{is_text}
use jpapt_v2_2_inspection.Lifecycle.Timeline.{
  Digests, split_equals, parse_candidate, Key, Observation, add_observation,
}
use jpapt_v2_2_inspection.Lifecycle.Timeline.Build.{
  execution_matches, observation_sha256, observe, load_snapshot, collect,
}

-- The digests of observations, in their order.
abbrev pub keys_of : List Observation → List String
keys_of = map (λ o. o.key.digest)

any-add :
    (s source : String) (new : Observation) (os : List Observation)
    → any (str_eq s) (keys_of os) ≡ false
    → str_eq s new.key.digest ≡ false
    → any (str_eq s) (keys_of (add_observation new source os)) ≡ false
unfolding add_observation
any-add s source new [] h k = rw k refl
any-add s source new (o ∷ rest) h k = ground (arith, any-add s source new rest)

add-Distinct :
    (source : String) (new : Observation) (os : List Observation)
    → Distinct (keys_of os)
    → Distinct (keys_of (add_observation new source os))
unfolding add_observation
add-Distinct source new [] d = (refl, tt)
add-Distinct source new (o ∷ rest) d = elim (Bool-cases (str_eq o.key.digest new.key.digest)) [
  | inl e ↦ rw e d
  | inr e ↦ rw e (any-add o.key.digest source new rest d.0 e, add-Distinct source new rest d.1)
]

module _ (from_iso : List ℕ → Option DateTime) (digests : Digests)
    (request_id execution : String) where
  -- The key of a snapshot of the request.
  pub record IsKeyed (key : Key) (snapshot : Fields) : Type 0 where
    pub state : State
    pub request : is_text request_id (find "request_id" snapshot) ≡ true
    pub matches : execution_matches execution snapshot ≡ true
    pub stated : state_of (find "state" snapshot) ≡ some state
    pub ranked : key.rank ≡ state_rank state
    pub timed : parse_time from_iso (find "updated_at" snapshot) ≡ ok key.observed_at
    pub digested : observation_sha256 from_iso digests snapshot ≡ key.digest

  -- An observation with a source, no source being empty.
  pub record IsObserved (o : Observation) : Type 0 where
    pub keyed : IsKeyed o.key o.snapshot
    pub named : All (λ s. str_eq s "" ≡ false) o.sources
    pub sourced : o.sources ≢ []

  pub observe-IsKeyed :
      (load : String → Option Fields) (value : Fields) (o : Observation)
      → observe from_iso digests load request_id execution value ≡ ok o
      → IsKeyed o.key o.snapshot × (o.snapshot ≡ value)
  unfolding observe
  observe-IsKeyed load value o h =
      let (request, h₁) =
        ensure-eq-ok (is_text request_id (find "request_id" value)) request_id_mismatch _ h in
      let (matches, h₂) =
        ensure-eq-ok (execution_matches execution value) execution_id_mismatch _ h₁ in
      let (state, stated, h₃) = require-eq-ok (state_of (find "state" value)) bad_state _ h₂ in
      let (t, timed, h₄) = >>=-eq-ok (parse_time from_iso (find "updated_at" value)) _ h₃ in
      subst (λ p. IsKeyed p.key p.snapshot × (p.snapshot ≡ value)) (ok-injective h₄)
        (
          record {
            state = state;
            request = request;
            matches = matches;
            stated = stated;
            ranked = refl;
            timed = timed;
            digested = refl;
          },
          refl,
        )

  add-IsObserved :
      (source : String) (new : Observation) (os : List Observation)
      → str_eq source "" ≡ false
      → IsKeyed new.key new.snapshot
      → All IsObserved os
      → All IsObserved (add_observation new source os)
  unfolding add_observation
  add-IsObserved source new [] named k h =
      (record { keyed = k; named = (named, tt); sourced = λ e. cc }, tt)
  add-IsObserved source new (o ∷ rest) named k h =
      elim (Bool-cases (str_eq o.key.digest new.key.digest)) [
        | inl e ↦ rw e (
          record {
            keyed = h.0.keyed;
            named =
                All-append (λ s. str_eq s "" ≡ false) o.sources (source ∷ []) h.0.named (named, tt);
            sourced = λ q. append_nonempty o.sources q;
          },
          h.1,
        )
        | inr e ↦ rw e (h.0, add-IsObserved source new rest named k h.1)
      ]
    where
      append_nonempty : (l : List String) → l ++ source ∷ [] ≡ [] → ⊥
      append_nonempty [] q = cc
      append_nonempty (x ∷ l) q = cc

  source_named :
      (candidate source path : String)
      → parse_candidate candidate ≡ ok (source, path)
      → str_eq source "" ≡ false
  unfolding parse_candidate
  source_named candidate source path h =
      let ((a, b), _, h₁) = require-eq-ok (split_equals candidate) bad_candidate _ h in
      let (both, h₂) = ensure-eq-ok (not (str_eq a "") && not (str_eq b "")) bad_candidate _ h₁ in
      subst (λ p. str_eq p.0 "" ≡ false) (ok-injective h₂) (left (str_eq a "") (str_eq b "") both)
    where
      left : (x y : Bool) → (not x && not y) ≡ true → x ≡ false
      left true y q = cc
      left false y q = refl

  -- Whatever is collected was observed, and no digest stands twice.
  pub collect-IsObserved :
      (load : String → Option Fields) (candidates : List String) (before after : List Observation)
      → collect from_iso digests load request_id execution candidates before ≡ ok after
      → All IsObserved before
      → Distinct (keys_of before)
      → All IsObserved after × Distinct (keys_of after)
  unfolding collect load_snapshot
  collect-IsObserved load [] before after h all apart =
      subst (λ os. All IsObserved os × Distinct (keys_of os)) (ok-injective h) (all, apart)
  collect-IsObserved load (candidate ∷ rest) before after h all apart =
      let ((source, path), parsed, h₁) = >>=-eq-ok (parse_candidate candidate) _ h in
      let (new, loaded, h₂) =
        >>=-eq-ok (load_snapshot from_iso digests load request_id execution path) _ h₁ in
      let (value, _, observed) = require-eq-ok (load path) unreadable _ loaded in
      collect-IsObserved load rest (add_observation new source before) after h₂
        (add-IsObserved source new before (source_named candidate source path parsed)
          (observe-IsKeyed load value new observed).0 all)
        (add-Distinct source new before apart)
