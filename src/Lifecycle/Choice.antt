-- ===== src/Lifecycle/Choice.antt =====
-- Which snapshot scripts/ci/reduce-candidate-lifecycle.py selects, and what
-- compare-candidate-lifecycle-state.py says of the same snapshots.
use jpapt_v2_2_inspection.Base.{
  ℕ, ◌≡◌, refl, sym, ap, subst, ◌∙◌, String, Bool, true, false, not, ◌&&◌, ◌||◌, Option, List, [],
  ◌∷◌, ok, some, none, map, ◌⊎◌, inl, inr, Bool-cases, eq_iff, ok-injective, >>=-eq-ok,
  ensure-eq-ok, require-eq-ok, arith, All, str_eq,
}
use jpapt_v2_2_inspection.Base.Int.{ℤ, le_ℤ, le_ℤ-order}
use jpapt_v2_2_inspection.Base.Sorting.{
  sort, insert, Sorted, sort-Sorted, sort-perm, IsTotalOrder, then_by-order,
}
use jpapt_v2_2_inspection.Base.Json.{
  Json, null, bool, int, real, str, arr, tuple, obj, Fields, find,
}
use mathlib.Core.List.{Perm}
use jpapt_v2_2_inspection.Lifecycle.Snapshot.{
  request_id_mismatch, state_mismatch, execution_id_mismatch, bad_state, State, state_text,
  state_rank, state_of, DateTime, parse_time,
}
use jpapt_v2_2_inspection.Lifecycle.States.{state_named}
use jpapt_v2_2_inspection.Lifecycle.Current.{
  Candidate, later, higher, by_recency, is_text, Source, candidate_of, candidates_of, first, reduce,
  should_write, same_value, is_truthy,
}

by_recency-order : IsTotalOrder by_recency
by_recency-order =
    then_by-order later higher
      (record {
        trans = λ a b d h k. le_ℤ-order.trans d.observed_at b.observed_at a.observed_at k h;
        flip = λ a b. le_ℤ-order.flip b.observed_at a.observed_at;
      })
      (record { trans = λ a b d h k. ground arith; flip = λ a b h. ground arith })

-- The selected candidate is one of all, and none is before it in the order by time and then rank.
pub record IsCurrent (candidates : List Candidate) (selected : Candidate) : Type 0 where
  pub others : List Candidate
  pub one_of : Perm (selected ∷ others) candidates
  pub newest : All (λ k. by_recency selected k ≡ true) others

-- The source of a candidate.
abbrev pub place_of : Candidate → Source
place_of k = (k.source, k.path, k.snapshot)

module _ (from_iso : List ℕ → Option DateTime) (request_id request_execution_id : String) where
  -- A snapshot of the request, and of the execution if one is asked for, with its time and rank.
  pub record IsOfRequest (k : Candidate) : Type 0 where
    pub request : find "request_id" k.snapshot ≡ some (str request_id)
    pub execution :
        (request_execution_id ≡ "")
        ⊎ (find "request_execution_id" k.snapshot ≡ some (str request_execution_id))
    pub ranked :
        (state : State) × (find "state" k.snapshot ≡ some (str (state_text state)))
        × (k.rank ≡ state_rank state)
    pub timed : parse_time from_iso (find "updated_at" k.snapshot) ≡ ok k.observed_at

  is_text-eq : (s : String) (o : Option Json) → is_text s o ≡ true → o ≡ some (str s)
  is_text-eq s none h = cc
  is_text-eq s (some (str t)) h = ap (λ u. some (str u)) ((eq_iff t s).0 h)
  is_text-eq s (some null) h = cc
  is_text-eq s (some (bool b)) h = cc
  is_text-eq s (some (int n)) h = cc
  is_text-eq s (some (real r)) h = cc
  is_text-eq s (some (arr xs)) h = cc
  is_text-eq s (some (tuple xs)) h = cc
  is_text-eq s (some (obj fields)) h = cc

  execution_asked :
      (o : Option Json)
      → (str_eq request_execution_id "" || is_text request_execution_id o) ≡ true
      → (request_execution_id ≡ "") ⊎ (o ≡ some (str request_execution_id))
  execution_asked o h = elim (Bool-cases (str_eq request_execution_id "")) [
    | inl e ↦ inl ((eq_iff request_execution_id "").0 e)
    | inr e ↦ inr (is_text-eq request_execution_id o (rw e at h))
  ]

  candidate_of-IsOfRequest :
      (source : Source) (k : Candidate)
      → candidate_of from_iso request_id request_execution_id source ≡ ok k
      → (place_of k ≡ source) × IsOfRequest k
  unfolding candidate_of
  candidate_of-IsOfRequest (s, p, value) k h =
      let (request, h₁) =
        ensure-eq-ok (is_text request_id (find "request_id" value)) request_id_mismatch _ h in
      let (execution, h₂) =
        ensure-eq-ok
          (str_eq request_execution_id ""
            || is_text request_execution_id (find "request_execution_id" value))
          execution_id_mismatch _ h₁ in
      let (state, named, h₃) = require-eq-ok (state_of (find "state" value)) bad_state _ h₂ in
      let (t, timed, h₄) = >>=-eq-ok (parse_time from_iso (find "updated_at" value)) _ h₃ in
      subst (λ j. (place_of j ≡ (s, p, value)) × IsOfRequest j) (ok-injective h₄)
        (
          refl,
          record {
            request = is_text-eq request_id (find "request_id" value) request;
            execution = execution_asked (find "request_execution_id" value) execution;
            ranked = (state, state_named (find "state" value) state named, refl);
            timed = timed;
          },
        )

  -- The candidates are those of the sources, one for each.
  abbrev AreOf : List Source → List Candidate → Type 0
  AreOf sources cs = (map place_of cs ≡ sources) × All IsOfRequest cs

  candidates_of-AreOf :
      (sources : List Source) (cs : List Candidate)
      → candidates_of from_iso request_id request_execution_id sources ≡ ok cs
      → AreOf sources cs
  unfolding candidates_of
  candidates_of-AreOf [] cs h = subst (AreOf []) (ok-injective h) (refl, tt)
  candidates_of-AreOf (source ∷ sources) cs h =
      let (k, made, h₁) =
        >>=-eq-ok (candidate_of from_iso request_id request_execution_id source) _ h in
      let (ks, rest, h₂) =
        >>=-eq-ok (candidates_of from_iso request_id request_execution_id sources) _ h₁ in
      let (same, of_request) = candidate_of-IsOfRequest source k made in
      let (all_of, all_request) = candidates_of-AreOf sources ks rest in
      subst (AreOf (source ∷ sources)) (ok-injective h₂) (
        ap (λ (s : Source). s ∷ map place_of ks) same ∙ ap (λ (l : List Source). source ∷ l) all_of,
        (of_request, all_request),
      )

  -- If a reduction selects a snapshot, the sources all hold snapshots of the request, and of the
  -- execution where one is asked for, in one of the states and with a time; the selected one is one
  -- of them, and no other was observed later, or at the same time in a state of higher rank.
  pub reduce-IsCurrent :
      (sources : List Source) (selected : Candidate)
      → reduce from_iso request_id request_execution_id sources ≡ ok selected
      → (candidates : List Candidate) × (map place_of candidates ≡ sources)
        × All IsOfRequest candidates
        × IsCurrent candidates selected
  unfolding reduce
  reduce-IsCurrent sources selected h =
      let (candidates, made, h₁) =
        >>=-eq-ok (candidates_of from_iso request_id request_execution_id sources) _ h in
      let (all_of, all_request) = candidates_of-AreOf sources candidates made in
      (
        candidates,
        all_of,
        all_request,
        of_sorted (sort by_recency candidates) candidates h₁ (sort-perm by_recency candidates)
            (sort-Sorted by_recency-order candidates),
      )
    where
      of_sorted :
          (sorted candidates : List Candidate)
          → first from_iso request_id request_execution_id sorted ≡ ok selected
          → Perm sorted candidates
          → Sorted by_recency sorted
          → IsCurrent candidates selected
      of_sorted [] candidates e p s = cc
      of_sorted (k ∷ ks) candidates e p s =
          subst (IsCurrent candidates) (ok-injective e)
            (record { others = ks; one_of = p; newest = s.0 })

-- A snapshot that the comparison does not let an incoming one replace was observed later.
should_write-later :
    (from_iso : List ℕ → Option DateTime) (existing incoming : Fields) (require_match : Bool)
    → should_write from_iso existing incoming require_match ≡ ok false
    → (t u : ℤ) × (parse_time from_iso (find "updated_at" existing) ≡ ok t)
      × (parse_time from_iso (find "updated_at" incoming) ≡ ok u)
      × (le_ℤ t u ≡ false)
unfolding should_write
should_write-later from_iso existing incoming require_match h =
    let (_, h₁) =
      ensure-eq-ok (same_value (find "request_id" existing) (find "request_id" incoming))
        request_id_mismatch _ h in
    let (_, h₂) =
      ensure-eq-ok (same_value (find "state" existing) (find "state" incoming)) state_mismatch _
        h₁ in
    let (_, h₃) =
      ensure-eq-ok
        (not require_match
          || (is_truthy (find "request_execution_id" existing)
              && same_value (find "request_execution_id" existing)
                  (find "request_execution_id" incoming)))
        execution_id_mismatch _ h₂ in
    let (t, first_time, h₄) = >>=-eq-ok (parse_time from_iso (find "updated_at" existing)) _ h₃ in
    let (u, second_time, h₅) = >>=-eq-ok (parse_time from_iso (find "updated_at" incoming)) _ h₄ in
    (t, u, first_time, second_time, ok-injective h₅)

module _ (from_iso : List ℕ → Option DateTime) (request_id request_execution_id : String) where
  -- A candidate keeps its snapshot, and its time is the snapshot's.
  candidate_of-time :
      (source : Source) (k : Candidate) (t : ℤ)
      → candidate_of from_iso request_id request_execution_id source ≡ ok k
      → parse_time from_iso (find "updated_at" source.2) ≡ ok t
      → (k.observed_at ≡ t) × (k.snapshot ≡ source.2)
  unfolding candidate_of
  candidate_of-time (s, p, value) k t h timed =
      let (_, h₁) =
        ensure-eq-ok (is_text request_id (find "request_id" value)) request_id_mismatch _ h in
      let (_, h₂) =
        ensure-eq-ok
          (str_eq request_execution_id ""
            || is_text request_execution_id (find "request_execution_id" value))
          execution_id_mismatch _ h₁ in
      let (state, _, h₃) = require-eq-ok (state_of (find "state" value)) bad_state _ h₂ in
      let (u, read, h₄) = >>=-eq-ok (parse_time from_iso (find "updated_at" value)) _ h₃ in
      (
        ap (λ c. c.observed_at) (sym (ok-injective h₄)) ∙ ok-injective (sym read ∙ timed),
        ap (λ c. c.snapshot) (sym (ok-injective h₄)),
      )

  later-first : (a b : Candidate) → le_ℤ a.observed_at b.observed_at ≡ false → by_recency a b ≡ true
  later-first a b h = let k = le_ℤ-order.flip a.observed_at b.observed_at h in rw (h, k) refl

  earlier-last :
      (a b : Candidate) → le_ℤ a.observed_at b.observed_at ≡ false → by_recency b a ≡ false
  earlier-last a b h = rw h refl

  -- The sources that both scripts read, in one order.
  selected_of_two :
      (one two : Source) (selected : Candidate)
      → reduce from_iso request_id request_execution_id (one ∷ two ∷ []) ≡ ok selected
      → (a b : Candidate) × (candidate_of from_iso request_id request_execution_id one ≡ ok a)
        × (candidate_of from_iso request_id request_execution_id two ≡ ok b)
        × (first from_iso request_id request_execution_id (sort by_recency (a ∷ b ∷ []))
            ≡ ok selected)
  unfolding reduce candidates_of
  selected_of_two one two selected h =
      let (cs, made, h₁) =
        >>=-eq-ok (candidates_of from_iso request_id request_execution_id (one ∷ two ∷ [])) _ h in
      let (a, made_a, h₂) =
        >>=-eq-ok (candidate_of from_iso request_id request_execution_id one) _ made in
      let (rest, made_rest, h₃) =
        >>=-eq-ok (candidates_of from_iso request_id request_execution_id (two ∷ [])) _ h₂ in
      let (b, made_b, h₄) =
        >>=-eq-ok (candidate_of from_iso request_id request_execution_id two) _ made_rest in
      let both : a ∷ b ∷ [] ≡ cs =
        ap (λ (l : List Candidate). a ∷ l) (ok-injective h₄) ∙ ok-injective h₃ in
      (
        a,
        b,
        made_a,
        made_b,
        subst
            (λ l. first from_iso request_id request_execution_id (sort by_recency l) ≡ ok selected)
            (sym both) h₁,
      )

  -- Where the comparison keeps an existing snapshot, a reduction over that one and the incoming one,
  -- in either order, selects the existing one too.
  pub reduce-should_write :
      (existing incoming : Source) (require_match : Bool) (selected other : Candidate)
      → should_write from_iso existing.2 incoming.2 require_match ≡ ok false
      → reduce from_iso request_id request_execution_id (existing ∷ incoming ∷ []) ≡ ok selected
      → reduce from_iso request_id request_execution_id (incoming ∷ existing ∷ []) ≡ ok other
      → (selected.snapshot ≡ existing.2) × (other.snapshot ≡ existing.2)
  unfolding sort insert
  reduce-should_write existing incoming require_match selected other kept h k =
      let (t, u, old_time, new_time, older) =
        should_write-later from_iso existing.2 incoming.2 require_match kept in
      let (a, b, made_a, made_b, e) = selected_of_two existing incoming selected h in
      let (c, d, made_c, made_d, f) = selected_of_two incoming existing other k in
      let (at, is_a) = candidate_of-time existing a t made_a old_time in
      let (bt, _) = candidate_of-time incoming b u made_b new_time in
      let (ct, _) = candidate_of-time incoming c u made_c new_time in
      let (dt, is_d) = candidate_of-time existing d t made_d old_time in
      let ab = later-first a b (rw (at, bt) older) in
      let cd = earlier-last d c (rw (dt, ct) older) in
      (
        ap (λ x. x.snapshot) (sym (ok-injective (rw ab at e))) ∙ is_a,
        ap (λ x. x.snapshot) (sym (ok-injective (rw cd at f))) ∙ is_d,
      )
