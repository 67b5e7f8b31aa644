-- ===== src/Configuration/Catalog/Closed.antt =====
-- A catalog that config/catalog.py loads is closed: what its profile sets name is in it.
use jpapt_v2_2_inspection.Base.{
  ◌≡◌, refl, sym, ap, subst, String, true, Option, none, some, List, [], ok, ok-injective,
  >>=-eq-ok, ensure-eq-ok, require-eq-ok,
}
use jpapt_v2_2_inspection.Base.Dict.{lookup, set, Every, nil-Every, set-Every}
use jpapt_v2_2_inspection.Base.Json.{Json, Fields, end, field, find}
use jpapt_v2_2_inspection.Configuration.Catalog.{
  unreadable, unknown_profile, unknown_default, DecoderProfile, ProfileSet, AsrCatalog,
  string_value, string_at, mapping, nonempty_key, read_profiles, is_some, read_variants,
  read_profile_set, read_profile_sets, root_of, load, profile_id_for, decoder_profile,
}

pub there : {A : Type 0} (o : Option A) → is_some o ≡ true → (a : A) × (o ≡ some a)
there none h = cc
there (some a) h = (a, refl)

module _ (profiles : List (String × DecoderProfile)) where
  -- Each variant names a profile.
  abbrev pub Named : List (String × String) → Type 0
  Named = Every (λ id. is_some (lookup id profiles) ≡ true)

  read_variants-Named :
      (raw : Fields) (before after : List (String × String))
      → read_variants profiles raw before ≡ ok after
      → Named before
      → Named after
  unfolding read_variants
  read_variants-Named end before after h named = subst Named (ok-injective h) named
  read_variants-Named (field key item rest) before after h named =
      let (variant, _, h₁) = >>=-eq-ok (nonempty_key key) _ h in
      let (id, _, h₂) = >>=-eq-ok (string_value (some item)) _ h₁ in
      let (known, h₃) = ensure-eq-ok (is_some (lookup id profiles)) unknown_profile _ h₂ in
      read_variants-Named rest (set variant id before) after h₃
        (set-Every _ variant id before known named)

  -- Each variant of the set names a profile, and the default variant is one of them.
  pub record IsClosedSet (s : ProfileSet) : Type 0 where
    pub named : Named s.variants
    pub default : is_some (lookup s.default_variant s.variants) ≡ true

  read_profile_set-closed :
      (id : String) (item : Json) (s : ProfileSet)
      → read_profile_set profiles id item ≡ ok s
      → IsClosedSet s
  unfolding read_profile_set
  read_profile_set-closed id item s h =
      let (value, _, h₁) = >>=-eq-ok (mapping (some item)) _ h in
      let (variants_raw, _, h₂) = >>=-eq-ok (mapping (find "variants" value)) _ h₁ in
      let (variants, read, h₃) = >>=-eq-ok (read_variants profiles variants_raw []) _ h₂ in
      let (default, _, h₄) = >>=-eq-ok (string_at value "default_variant") _ h₃ in
      let (known, h₅) = ensure-eq-ok (is_some (lookup default variants)) unknown_default _ h₄ in
      subst IsClosedSet (ok-injective h₅) (record {
        named = read_variants-Named variants_raw [] variants read (nil-Every _);
        default = known;
      })

  read_profile_sets-closed :
      (raw : Fields) (before after : List (String × ProfileSet))
      → read_profile_sets profiles raw before ≡ ok after
      → Every IsClosedSet before
      → Every IsClosedSet after
  unfolding read_profile_sets
  read_profile_sets-closed end before after h closed =
      subst (Every IsClosedSet) (ok-injective h) closed
  read_profile_sets-closed (field key item rest) before after h closed =
      let (id, _, h₁) = >>=-eq-ok (nonempty_key key) _ h in
      let (s, read, h₂) = >>=-eq-ok (read_profile_set profiles id item) _ h₁ in
      read_profile_sets-closed rest (set id s before) after h₂
        (set-Every IsClosedSet id s before (read_profile_set-closed id item s read) closed)

-- The profile sets of a loaded catalog name only its profiles.
abbrev pub IsClosed : AsrCatalog → Type 0
IsClosed c = Every (IsClosedSet c.decoder_profiles) c.profile_sets

pub load-IsClosed :
    (digest : Fields → String) (file : Option Json) (c : AsrCatalog)
    → load digest file ≡ ok c
    → IsClosed c
unfolding load
load-IsClosed digest file c h =
    let (value, _, h₁) = require-eq-ok file unreadable _ h in
    let (raw, _, h₂) = >>=-eq-ok (root_of value) _ h₁ in
    let (id, _, h₃) = >>=-eq-ok (string_at raw "catalog_id") _ h₂ in
    let (profiles_raw, _, h₄) = >>=-eq-ok (mapping (find "decoder_profiles" raw)) _ h₃ in
    let (profiles, _, h₅) = >>=-eq-ok (read_profiles profiles_raw []) _ h₄ in
    let (sets_raw, _, h₆) = >>=-eq-ok (mapping (find "profile_sets" raw)) _ h₅ in
    let (sets, read, h₇) = >>=-eq-ok (read_profile_sets profiles sets_raw []) _ h₆ in
    subst IsClosed (ok-injective h₇)
      (read_profile_sets-closed profiles sets_raw [] sets read (nil-Every _))

-- The digest of a loaded catalog is that of some value.
pub load-sha256 :
    (digest : Fields → String) (file : Option Json) (c : AsrCatalog)
    → load digest file ≡ ok c
    → (raw : Fields) × (c.sha256 ≡ digest raw)
unfolding load
load-sha256 digest file c h =
    let (value, _, h₁) = require-eq-ok file unreadable _ h in
    let (raw, _, h₂) = >>=-eq-ok (root_of value) _ h₁ in
    let (id, _, h₃) = >>=-eq-ok (string_at raw "catalog_id") _ h₂ in
    let (profiles_raw, _, h₄) = >>=-eq-ok (mapping (find "decoder_profiles" raw)) _ h₃ in
    let (profiles, _, h₅) = >>=-eq-ok (read_profiles profiles_raw []) _ h₄ in
    let (sets_raw, _, h₆) = >>=-eq-ok (mapping (find "profile_sets" raw)) _ h₅ in
    let (sets, _, h₇) = >>=-eq-ok (read_profile_sets profiles sets_raw []) _ h₆ in
    (raw, ap (λ (x : AsrCatalog). x.sha256) (sym (ok-injective h₇)))

-- A catalog has the profile that a variant of one of its sets stands for.
abbrev pub Resolves : AsrCatalog → ProfileSet → Option String → Type 0
Resolves c s variant =
    (id : String) × (profile_id_for s variant ≡ ok id)
    × ((profile : DecoderProfile) × (decoder_profile c id ≡ ok profile))
