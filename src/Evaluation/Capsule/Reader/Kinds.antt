-- ===== src/Evaluation/Capsule/Reader/Kinds.antt =====
-- What `_validate_rows` (evaluation/capsule_reader.py) takes from a row of each kind.
use jpapt_v2_2_inspection.Base.{
  ℕ, ◌≡◌, refl, sym, ap, subst, ◌∙◌, String, Bool, true, false, inl, inr, Option, none, some, List,
  [], ◌∷◌, ◌++◌, map, append-nil, ok, ok-injective, ◌>>=◌, >>=-eq-ok, raise_if-eq-ok, Bool-cases,
  arith, any, str_eq, eq_iff, if◌then◌else◌,
}
use jpapt_v2_2_inspection.Base.Distinct.{Distinct, Distinct-snoc}
use jpapt_v2_2_inspection.Base.Int.{ℤ, pos, negsuc}
use jpapt_v2_2_inspection.Evaluation.Capsule.Rows.Columns.{Row}
use jpapt_v2_2_inspection.Evaluation.Capsule.Reader.{duplicate_sample_id, rows_of_kind, same_text}
use jpapt_v2_2_inspection.Evaluation.Capsule.Reader.Parts.{require_nonempty_string}
use jpapt_v2_2_inspection.Evaluation.Capsule.Reader.Rows.{Seen, add_id, require_ordinal, see_kind}

pub add_id-mem : (s : String) (ids : List String) → any (str_eq s) (add_id s ids) ≡ true
unfolding add_id
add_id-mem s ids = elim (Bool-cases (any (str_eq s) ids)) [
  | inl e ↦ rw e e
  | inr e ↦ rw e (at_end ids)
]
  where
    at_end : (l : List String) → any (str_eq s) (l ++ s ∷ []) ≡ true
    at_end [] = rw ((eq_iff s s).1 refl) refl
    at_end (x ∷ l) = ground (arith, at_end l)

pub add_id-keep :
    (s t : String) (ids : List String)
    → any (str_eq s) ids ≡ true
    → any (str_eq s) (add_id t ids) ≡ true
unfolding add_id
add_id-keep s t ids h = elim (Bool-cases (any (str_eq t) ids)) [
  | inl e ↦ rw e h
  | inr e ↦ rw e (longer ids h)
]
  where
    longer : (l : List String) → any (str_eq s) l ≡ true → any (str_eq s) (l ++ t ∷ []) ≡ true
    longer [] k = cc
    longer (x ∷ l) k = ground (arith, longer l)

pub require_nonempty_string-eq-ok :
    (o : Option String) {s : String} → require_nonempty_string o ≡ ok s → o ≡ some s
unfolding require_nonempty_string
require_nonempty_string-eq-ok none h = cc
require_nonempty_string-eq-ok (some t) h = ground arith

pub require_ordinal-eq-ok : (o : Option ℤ) {n : ℕ} → require_ordinal o ≡ ok n → o ≡ some (pos n)
unfolding require_ordinal
require_ordinal-eq-ok none h = cc
require_ordinal-eq-ok (some (pos n)) h = cc
require_ordinal-eq-ok (some (negsuc n)) h = cc

pub same_text-eq : (o : Option String) (s : String) → same_text o (some s) ≡ true → o ≡ some s
same_text-eq none s h = cc
same_text-eq (some t) s h = ap some ((eq_iff t s).0 h)

-- The sample ids of the rows' samples.
abbrev pub sample_ids_of : List Row → List (Option String)
sample_ids_of rows = map (λ row. row.sample.sample_id) (rows_of_kind "sample" rows)

-- What a row's kind adds to what is seen.
pub record KindSeen (row : Row) (seen next : Seen) : Type 0 where
  pub runs : next.run_ids ≡ seen.run_ids
  pub numbers : next.ordinals ≡ seen.ordinals
  pub manifest : next.manifests ≡ seen.manifests ++ rows_of_kind "manifest" (row ∷ [])
  pub new_ids : List String
  pub ids : next.sample_ids ≡ seen.sample_ids ++ new_ids
  pub of_row : map some new_ids ≡ sample_ids_of (row ∷ [])
  pub fresh : Distinct seen.sample_ids → Distinct next.sample_ids

pub see_kind-KindSeen :
    (kind : String) (row : Row) (seen next : Seen)
    → row.record_kind ≡ some kind
    → see_kind kind row seen ≡ ok next
    → KindSeen row seen next
unfolding see_kind
see_kind-KindSeen kind row seen next k h = elim (Bool-cases (str_eq kind "manifest")) [
  | inl e ↦
      let named : row.record_kind ≡ some "manifest" = k ∙ ap some ((eq_iff _ _).0 e) in
      subst (KindSeen row seen) (ok-injective (rw e at h)) (record {
        runs = refl;
        numbers = refl;
        manifest = rw named refl;
        new_ids = [];
        ids = sym (append-nil seen.sample_ids);
        of_row = rw named refl;
        fresh = λ d. d;
      })
  | inr e ↦ elim (Bool-cases (str_eq kind "sample")) [
    | inl e₁ ↦
        let named : row.record_kind ≡ some "sample" = k ∙ ap some ((eq_iff _ _).0 e₁) in
        let (sample_id, is, h₁) =
          >>=-eq-ok (require_nonempty_string row.sample.sample_id) _ (rw (e, e₁) at h) in
        let (new, h₂) =
          raise_if-eq-ok (any (str_eq sample_id) seen.sample_ids) duplicate_sample_id _ h₁ in
        subst (KindSeen row seen) (ok-injective h₂) (record {
          runs = refl;
          numbers = refl;
          manifest = rw named (sym (append-nil seen.manifests));
          new_ids = sample_id ∷ [];
          ids = refl;
          of_row = rw named (
              ap (λ (o : Option String). o ∷ [])
                (sym (require_nonempty_string-eq-ok row.sample.sample_id is)));
          fresh = λ d. Distinct-snoc sample_id seen.sample_ids d new;
        })
    | inr e₁ ↦
        subst (KindSeen row seen) (unchanged (str_eq kind "metric") (rw (e, e₁) at h)) (record {
          runs = refl;
          numbers = refl;
          manifest = rw (k, e) (sym (append-nil seen.manifests));
          new_ids = [];
          ids = sym (append-nil seen.sample_ids);
          of_row = rw (k, e₁) refl;
          fresh = λ d. d;
        })
  ]
]
  where
    unchanged :
        (b : Bool)
        → (if b then (require_nonempty_string row.metric.metric_name >>= λ _. ok seen) else ok seen)
          ≡ ok next
        → seen ≡ next
    unchanged true e =
        ok-injective ((>>=-eq-ok (require_nonempty_string row.metric.metric_name) _ e).2)
    unchanged false e = ok-injective e
