-- ===== src/Hf/Targets/Consistent.antt =====
-- A target that hf/targets.py loads agrees with the catalog.
use jpapt_v2_2_inspection.Base.{
  ◌≡◌, refl, sym, ap, subst, ◌∙◌, inl, inr, String, true, ◌||◌, Option, none, some, List, [], ◌∷◌,
  ◌++◌, Result, ok, err, >>=-eq-ok, ensure-eq-ok, ok-injective, All, All-append, any, str_eq,
  eq_iff, arith, Bool-cases, require,
}
use mathlib.Core.Option.{some-injective}
use jpapt_v2_2_inspection.Base.Dict.{lookup}
use jpapt_v2_2_inspection.Base.Distinct.{Distinct, Distinct-snoc}
use jpapt_v2_2_inspection.Base.Int.{pos}
use jpapt_v2_2_inspection.Base.Json.{Json, int, Fields, find, or_null, same_json}
use jpapt_v2_2_inspection.Configuration.Catalog.{
  CatalogError, AsrCatalog, ProfileSet, DecoderProfile, load, profile_set, decoder_profile,
  profile_id_for, unknown_variant,
}
use jpapt_v2_2_inspection.Configuration.Resolver.{TomlFile}
use jpapt_v2_2_inspection.Hf.Targets.{
  HfTarget, add_key, decoders_of, Offer, offer_of, as_target_error, read_toml, required_table,
  require_string, load_hf_target,
}

-- Some profile of the catalog has the decoder.
abbrev pub HasDecoder : AsrCatalog → String → Type 0
HasDecoder c decoder =
    (id : String) × (profile : DecoderProfile) × (decoder_profile c id ≡ ok profile)
    × (profile.decoder ≡ decoder)

any-snoc :
    (s t : String) (found : List String)
    → any (str_eq s) (found ++ (t ∷ [])) ≡ (any (str_eq s) found || str_eq s t)
any-snoc s t [] = ground arith
any-snoc s t (id ∷ found) = ground (arith, any-snoc s t found)

add_key_self : (found : List String) (key : String) → any (str_eq key) (add_key found key) ≡ true
add_key_self found key = elim (Bool-cases (any (str_eq key) found)) [
  | inl e ↦ rw (e, e) refl
  | inr e ↦
      let same : str_eq key key ≡ true = (eq_iff key key).1 refl in
      rw (e, any-snoc key key found, e) same
]

add_key-keeps :
    (found : List String) (key s : String)
    → any (str_eq s) found ≡ true
    → any (str_eq s) (add_key found key) ≡ true
add_key-keeps found key s h = elim (Bool-cases (any (str_eq key) found)) [
  | inl e ↦ rw e h
  | inr e ↦ rw (e, any-snoc s key found, h) refl
]

add_key-Distinct :
    (found : List String) (key : String) → Distinct found → Distinct (add_key found key)
add_key-Distinct found key h = elim (Bool-cases (any (str_eq key) found)) [
  | inl e ↦ rw e h
  | inr e ↦ rw e (Distinct-snoc key found h e)
]

add_key-All :
    (P : String → Type 0) (found : List String) (key : String)
    → All P found
    → P key
    → All P (add_key found key)
add_key-All P found key h k = elim (Bool-cases (any (str_eq key) found)) [
  | inl e ↦ rw e h
  | inr e ↦ rw e (All-append P found (key ∷ []) h (k, tt))
]

module _ (c : AsrCatalog) where
  -- What the loop keeps: the decoders are different ones of the catalog's.
  abbrev pub IsOffered : List String → Type 0
  IsOffered found = Distinct found × All (HasDecoder c) found

  decoders_of-IsOffered :
      (variants : List (String × String)) (found : List String) {out : List String}
      → decoders_of c variants found ≡ ok out
      → IsOffered found
      → IsOffered out
  unfolding decoders_of
  decoders_of-IsOffered [] found h offered = subst IsOffered (ok-injective h) offered
  decoders_of-IsOffered ((variant, id) ∷ rest) found h offered =
      let (profile, e, h₁) = >>=-eq-ok (decoder_profile c id) _ h in
      decoders_of-IsOffered rest (add_key found profile.decoder) h₁ (
        add_key-Distinct found profile.decoder offered.0,
        add_key-All (HasDecoder c) found profile.decoder offered.1 (id, profile, e, refl),
      )

  decoders_of-keeps :
      (variants : List (String × String)) (found : List String) (s : String) {out : List String}
      → decoders_of c variants found ≡ ok out
      → any (str_eq s) found ≡ true
      → any (str_eq s) out ≡ true
  unfolding decoders_of
  decoders_of-keeps [] found s h k = subst (λ l. any (str_eq s) l ≡ true) (ok-injective h) k
  decoders_of-keeps ((variant, id) ∷ rest) found s h k =
      let (profile, e, h₁) = >>=-eq-ok (decoder_profile c id) _ h in
      decoders_of-keeps rest (add_key found profile.decoder) s h₁
        (add_key-keeps found profile.decoder s k)

  -- The decoder of a variant's profile is among those that the loop collects.
  decoders_of-lookup :
      (variants : List (String × String)) (found : List String) (variant id : String)
      (profile : DecoderProfile) {out : List String}
      → decoders_of c variants found ≡ ok out
      → lookup variant variants ≡ some id
      → decoder_profile c id ≡ ok profile
      → any (str_eq profile.decoder) out ≡ true
  unfolding decoders_of lookup
  decoders_of-lookup [] found variant id profile h k e = cc
  decoders_of-lookup ((v, i) ∷ rest) found variant id profile {out = out} h k e =
      let (first, e₁, h₁) = >>=-eq-ok (decoder_profile c i) _ h in
      elim (Bool-cases (str_eq v variant)) [
        | inl here ↦
            let now : lookup variant ((v, i) ∷ rest) ≡ some i = rw here refl in
            let same_id : i ≡ id = some-injective _ _ (sym now ∙ k) in
            let same : first ≡ profile =
              ok-injective (sym e₁ ∙ ap (decoder_profile c) same_id ∙ e) in
            subst (λ (p : DecoderProfile). any (str_eq p.decoder) out ≡ true) same
              (decoders_of-keeps rest (add_key found first.decoder) first.decoder h₁
                (add_key_self found first.decoder))
        | inr other ↦
            let later : lookup variant ((v, i) ∷ rest) ≡ lookup variant rest = rw other refl in
            decoders_of-lookup rest (add_key found first.decoder) variant id profile h₁
              (sym later ∙ k) e
      ]

-- What the catalog offers under the name of a profile set.
pub record IsOffer (c : AsrCatalog) (set_id : String) (o : Offer) : Type 0 where
  pub in_catalog : profile_set c set_id ≡ ok o.of_set
  pub different : Distinct o.decoders
  pub known : All (HasDecoder c) o.decoders
  pub of_default :
      (id : String) × (profile : DecoderProfile) × (profile_id_for o.of_set none ≡ ok id)
      × (decoder_profile c id ≡ ok profile)
      × (profile.decoder ≡ o.default)
  pub supported : any (str_eq o.default) o.decoders ≡ true

offer_of-IsOffer :
    (digest : Fields → String) (file : Option Json) (set_id : String) {o : Offer}
    → offer_of digest file set_id ≡ ok o
    → (c : AsrCatalog) × (load digest file ≡ ok c) × IsOffer c set_id o
unfolding offer_of profile_id_for
offer_of-IsOffer digest file set_id h =
    let (c, loaded, h₁) = >>=-eq-ok (load digest file) _ h in
    let (set, in_catalog, h₂) = >>=-eq-ok (profile_set c set_id) _ h₁ in
    let (decoders, collected, h₃) = >>=-eq-ok (decoders_of c set.variants []) _ h₂ in
    let (id, chosen, h₄) = >>=-eq-ok (profile_id_for set none) _ h₃ in
    let (profile, known, h₅) = >>=-eq-ok (decoder_profile c id) _ h₄ in
    let (different, all) = decoders_of-IsOffered c set.variants [] collected (tt, tt) in
    let offer : IsOffer c set_id _ = record {
      in_catalog = in_catalog;
      different = different;
      known = all;
      of_default = (id, profile, chosen, known, refl);
      supported =
          decoders_of-lookup c set.variants [] set.default_variant id profile collected
            (required (lookup set.default_variant set.variants) chosen) known;
    } in
    (c, loaded, subst (IsOffer c set_id) (ok-injective h₅) offer)
  where
    required :
        (o : Option String) {id : String}
        → ◌≡◌ {A = Result CatalogError String} (require o unknown_variant) (ok id)
        → o ≡ some id
    required none h = cc
    required (some id) h = ap some (ok-injective h)

-- The part of a target that comes from the catalog.
abbrev pub offer_in : HfTarget → ProfileSet → Offer
offer_in t set = record {
  of_set = set;
  decoders = t.supported_decoders;
  default = t.default_decoder;
}

-- The target's profile set is the catalog's.
abbrev pub IsConsistent : AsrCatalog → HfTarget → Type 0
IsConsistent c t =
    (set : ProfileSet) × IsOffer c t.profile_set_id (offer_in t set)
    × (t.default_variant ≡ set.default_variant)

-- If a target loads, so does the catalog, and the catalog has the target's profile set, with the
-- target's default variant; the supported decoders are different from each other and each is that
-- of a profile of the catalog; the default decoder is that of the default variant's profile, and
-- one of the supported decoders.
pub load_hf_target-IsConsistent :
    (digest : Fields → String) (catalog_file : Option Json) (toml : TomlFile) (t : HfTarget)
    → load_hf_target digest catalog_file toml ≡ ok t
    → (c : AsrCatalog) × (load digest catalog_file ≡ ok c) × IsConsistent c t
unfolding load_hf_target
load_hf_target-IsConsistent digest catalog_file toml t h =
    let (raw, _, h₁) = >>=-eq-ok (read_toml toml) _ h in
    let (_, h₂) =
      ensure-eq-ok (same_json (or_null (find "schema_version" raw)) (int (pos 2))) _ _ h₁ in
    let (target, _, h₃) = >>=-eq-ok (required_table raw "target") _ h₂ in
    let (upstream, _, h₄) = >>=-eq-ok (required_table raw "upstream") _ h₃ in
    let (reference, _, h₅) = >>=-eq-ok (required_table raw "reference") _ h₄ in
    let (runtime, _, h₆) = >>=-eq-ok (required_table raw "runtime") _ h₅ in
    let (storage, _, h₇) = >>=-eq-ok (required_table raw "storage") _ h₆ in
    let (evaluation, _, h₈) = >>=-eq-ok (required_table raw "evaluation") _ h₇ in
    let (set_id, _, h₉) = >>=-eq-ok (require_string runtime "profile_set") _ h₈ in
    let (offer, offered, k) =
      >>=-eq-ok (as_target_error (offer_of digest catalog_file set_id)) _ h₉ in
    let (id, _, k₁) = >>=-eq-ok (require_string target "id") _ k in
    let (model_id, _, k₂) = >>=-eq-ok (require_string target "model_id") _ k₁ in
    let (repo_id, _, k₃) = >>=-eq-ok (require_string upstream "repo_id") _ k₂ in
    let (framework, _, k₄) = >>=-eq-ok (require_string reference "canonical_framework") _ k₃ in
    let (bucket, _, k₅) = >>=-eq-ok (require_string storage "bucket") _ k₄ in
    let (model_repo, _, k₆) = >>=-eq-ok (require_string storage "model_repo") _ k₅ in
    let (policy, _, k₇) = >>=-eq-ok (require_string evaluation "datasets_policy") _ k₆ in
    let (c, loaded, is_offer) =
      offer_of-IsOffer digest catalog_file set_id (not_refused _ offered) in
    (c, loaded, subst (IsConsistent c) (ok-injective k₇) (offer.of_set, is_offer, refl))
  where
    not_refused : (r : Result CatalogError Offer) {o : Offer} → as_target_error r ≡ ok o → r ≡ ok o
    not_refused (err e) h = cc
    not_refused (ok offer) h = ap ok (ok-injective h)
