-- ===== src/Lifecycle/Timeline/Valid.antt =====
-- The timeline that scripts/ci/build-candidate-request-timeline.py assembles passes its validation.
use jpapt_v2_2_inspection.Base.{
  ℕ, zero, suc, ◌≤◌, ◌≡◌, refl, sym, ap, subst, String, Bool, true, false, ◌&&◌, ◌||◌, Option, none,
  some, List, [], ◌∷◌, ok, length, take, length-take, all, any, All, All-map, ◌==◌, ==_iff, arith,
  str_eq, eq_iff,
}
use Prim.Native.Char.{code}
use jpapt_v2_2_inspection.Base.Distinct.{Distinct, str_eq-sym}
use jpapt_v2_2_inspection.Base.Int.{pos, le_ℤ-order}
use jpapt_v2_2_inspection.Base.Sorting.{Sorted, IsTotalOrder, then_by-order}
use jpapt_v2_2_inspection.Base.Text.{codes, leb_text-order}
use jpapt_v2_2_inspection.Base.Json.{
  Json, null, bool, int, real, str, arr, tuple, obj, find, keys, or_null, same_json,
}
use jpapt_v2_2_inspection.Lifecycle.Snapshot.{
  state_of, DateTime, hex_char, is_sha256, contains, State,
}
use jpapt_v2_2_inspection.Lifecycle.Timeline.{
  Digests, prefix, is_request_key, Key, by_time, by_rank, by_digest, Observation, in_order,
  event_of, events_of, last_state, has_fields, length_items,
}
use jpapt_v2_2_inspection.Lifecycle.Timeline.Build.{
  precedes, final_state, request_key, check_snapshot, check_event, check_events,
}
use jpapt_v2_2_inspection.Lifecycle.Timeline.Sources.{str_eq_refl, sources_valid-sorted_set}
use jpapt_v2_2_inspection.Lifecycle.Timeline.Observed.{keys_of, IsKeyed, IsObserved}

pub in_order-order : IsTotalOrder in_order
in_order-order =
    let times : IsTotalOrder by_time = record {
      trans = λ a b c. le_ℤ-order.trans a.observed_at b.observed_at c.observed_at;
      flip = λ a b. le_ℤ-order.flip a.observed_at b.observed_at;
    } in
    let ranks : IsTotalOrder by_rank = record {
      trans = λ a b c h k. ground arith;
      flip = λ a b h. ground arith;
    } in
    let texts : IsTotalOrder by_digest = record {
      trans = λ a b c. leb_text-order.trans a.digest b.digest c.digest;
      flip = λ a b. leb_text-order.flip a.digest b.digest;
    } in
    let o = then_by-order by_time _ times (then_by-order by_rank by_digest ranks texts) in
    record { trans = λ a b c. o.trans a.key b.key c.key; flip = λ a b. o.flip a.key b.key }

codes-prefix : (n : ℕ) (s : String) → codes (prefix n s) ≡ take n (codes s)
unfolding codes prefix
codes-prefix zero s = refl
codes-prefix (suc n) String.[] = refl
codes-prefix (suc n) (String.◌∷◌ c s) = ap (λ (l : List ℕ). code c ∷ l) (codes-prefix n s)

all-take : (p : ℕ → Bool) (n : ℕ) (cs : List ℕ) → all p cs ≡ true → all p (take n cs) ≡ true
all-take p zero cs h = refl
all-take p (suc n) [] h = refl
all-take p (suc n) (c ∷ cs) h = ground (arith, all-take p n cs)

taken_whole :
    (p : ℕ → Bool) (n : ℕ) (cs : List ℕ)
    → n ≤ length cs
    → all p cs ≡ true
    → (length (take n cs) == n && all p (take n cs)) ≡ true
taken_whole p n cs h good =
    rw ((==_iff (length (take n cs)) n).1 (omega (arith, length-take n cs))) (all-take p n cs good)

both : (a b : Bool) → (a && b) ≡ true → (a ≡ true) × (b ≡ true)
both true b h = (refl, h)
both false b h = cc

neither : (a b : Bool) → (a || b) ≡ false → (a ≡ false) × (b ≡ false)
neither true b h = cc
neither false b h = (refl, h)

-- A state is a text, which equals itself.
same_state :
    (v : Option Json) {state : State}
    → state_of v ≡ some state
    → same_json (or_null v) (or_null v) ≡ true
unfolding same_json
same_state none h = cc
same_state (some (str s)) h = str_eq_refl s
same_state (some null) h = cc
same_state (some (bool b)) h = cc
same_state (some (int n)) h = cc
same_state (some (real r)) h = cc
same_state (some (arr xs)) h = cc
same_state (some (tuple xs)) h = cc
same_state (some (obj fields)) h = cc

pub same_int : (n : ℕ) → same_json (int (pos n)) (int (pos n)) ≡ true
unfolding same_json
same_int n = (==_iff n n).1 refl

module _ (from_iso : List ℕ → Option DateTime) (digests : Digests)
    (hex : (text : String) → is_sha256 (digests.hexdigest text) ≡ true) where
  pub request_key-valid :
      (request_id : String) → is_request_key (request_key from_iso digests request_id) ≡ true
  unfolding is_request_key is_sha256
  request_key-valid request_id = rw (codes-prefix 24 whole) (sized (codes whole) (hex request_id))
    where
      whole : String
      whole = digests.hexdigest request_id

      sized :
          (cs : List ℕ)
          → (length cs == 64 && all hex_char cs) ≡ true
          → (length (take 24 cs) == 24 && all hex_char (take 24 cs)) ≡ true
      sized cs h =
          let (long, good) = both (length cs == 64) (all hex_char cs) h in
          let long' = (==_iff (length cs) 64).0 long in
          taken_whole hex_char 24 cs (omega arith) good

  module _ (request_id execution : String) where
    check_snapshot-ok :
        (o : Observation) (previous : Option Key)
        → IsKeyed from_iso digests request_id execution o.key o.snapshot
        → precedes o.key previous ≡ false
        → check_snapshot from_iso digests request_id execution o.key.digest previous o.snapshot
          ≡ ok o.key
    unfolding check_snapshot
    check_snapshot-ok o previous k late =
        let requested = k.request in
        let matched = k.matches in
        let stated = k.stated in
        let same = (eq_iff _ _).1 k.digested in
        let timed = k.timed in
        let ranked = sym k.ranked in
        rw (requested, matched, stated, same, timed) (rw (ranked, late) refl)

    check_event-ok :
        (o : Observation) (seen : List String) (previous : Option Key)
        → IsObserved from_iso digests request_id execution o
        → contains seen o.key.digest ≡ false
        → precedes o.key previous ≡ false
        → check_event from_iso digests request_id execution seen previous (event_of o) ≡ ok o.key
    unfolding check_event event_of has_fields keys find
    check_event-ok o seen previous k new late =
        let valid = sources_valid-sorted_set o.sources k.named k.sourced in
        let is_hex : is_sha256 o.key.digest ≡ true =
          subst (λ d. is_sha256 d ≡ true) k.keyed.digested (hex _) in
        rw (is_hex, new, valid) (check_snapshot-ok o previous k.keyed late)

    pub check_events-ok :
        (os : List Observation) (seen : List String) (previous : Option Key)
        → All (IsObserved from_iso digests request_id execution) os
        → Sorted in_order os
        → Distinct (keys_of os)
        → All (λ o. contains seen o.key.digest ≡ false) os
        → All (λ o. precedes o.key previous ≡ false) os
        → check_events from_iso digests request_id execution seen previous (events_of os) ≡ ok tt
    unfolding check_events events_of
    check_events-ok [] seen previous observed sorted apart new late = refl
    check_events-ok (o ∷ os) seen previous observed sorted apart new late =
        rw (check_event-ok o seen previous observed.0 new.0 late.0) (
          check_events-ok os (o.key.digest ∷ seen) (some o.key) observed.1 sorted.1 apart.1
            (unseen os apart.0 new.1) (All-map (λ p h. rw h refl) os sorted.0))
      where
        unseen :
            (ps : List Observation)
            → any (str_eq o.key.digest) (keys_of ps) ≡ false
            → All (λ p. contains seen p.key.digest ≡ false) ps
            → All (λ p. contains (o.key.digest ∷ seen) p.key.digest ≡ false) ps
        unseen [] a h = tt
        unseen (p ∷ ps) a h =
            let (here, there) = neither (str_eq o.key.digest p.key.digest) _ a in
            let turned = str_eq-sym o.key.digest p.key.digest here in
            let before = h.0 in (rw (turned, before) refl, unseen ps there h.1)

    pub length-events_of : (os : List Observation) → length_items (events_of os) ≡ length os
    unfolding events_of
    length-events_of [] = refl
    length-events_of (o ∷ os) = ap suc (length-events_of os)

    pub final-events_of :
        (o : Observation) (os : List Observation)
        → final_state (event_of o) (events_of os) ≡ last_state o os
    unfolding events_of event_of find
    final-events_of o [] = refl
    final-events_of o (p ∷ os) = final-events_of p os

    pub last_state_same :
        (o : Observation) (os : List Observation)
        → All (IsObserved from_iso digests request_id execution) (o ∷ os)
        → same_json (last_state o os) (last_state o os) ≡ true
    last_state_same o [] h = same_state (find "state" o.snapshot) h.0.keyed.stated
    last_state_same o (p ∷ os) h = last_state_same p os h.1
