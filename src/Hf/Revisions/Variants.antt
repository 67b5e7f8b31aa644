-- ===== src/Hf/Revisions/Variants.antt =====
-- Resolving a variant of a locked runtime against the catalog (hf/revisions.py, config/catalog.py).
use jpapt_v2_2_inspection.Base.{◌≡◌, String, Option, some, ok}
use jpapt_v2_2_inspection.Base.Dict.{lookup}
use jpapt_v2_2_inspection.Base.Json.{Json}
use jpapt_v2_2_inspection.Configuration.Catalog.{
  AsrCatalog, DecoderProfile, selected_variant, decoder_profile,
}
use jpapt_v2_2_inspection.Configuration.Catalog.Closed.{IsClosedSet}
use jpapt_v2_2_inspection.Hf.Revisions.{RuntimeRevision, resolve_variant}

-- The variants of a locked runtime are those of a profile set of the catalog.
IsLocked : AsrCatalog → RuntimeRevision → Type 0
IsLocked c r = IsClosedSet c.decoder_profiles (record {
  profile_set_id = r.profile_set_id;
  variants = r.variants;
  default_variant = r.default_variant;
})

-- The variant stands for a profile of the catalog, and the decoder is that profile's.
pub record IsResolved (c : AsrCatalog) (r : RuntimeRevision) (variant : Option String)
    : Type 0 where
  pub profile_id : String
  pub profile : DecoderProfile
  pub listed : lookup (selected_variant variant r.default_variant) r.variants ≡ some profile_id
  pub known : decoder_profile c profile_id ≡ ok profile
  pub returns :
      resolve_variant r c variant
      ≡ ok (selected_variant variant r.default_variant, profile_id, profile.decoder)
