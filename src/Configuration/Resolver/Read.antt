-- ===== src/Configuration/Resolver/Read.antt =====
-- The files of the configs, as config/loader.py accepts them.
use jpapt_v2_2_inspection.Base.{
  ◌≡◌, refl, sym, subst, ap, ◌∙◌, ◌⊎◌, inl, inr, ◌↔◌, String, true, false, Option, none, some,
  Result, ok, >>=-eq-ok, >>=-ok, ensure, ok-injective, ensure-eq-ok, str_eq, eq_iff, suc, zero,
}
use jpapt_v2_2_inspection.Base.Int.{pos, negsuc}
use jpapt_v2_2_inspection.Base.Json.{
  Json, null, bool, int, real, str, tuple, obj, arr, Fields, find, or_null,
}
use jpapt_v2_2_inspection.Configuration.Models.{ConfigError, id_mismatch, BaseConfig, FilePath}
use jpapt_v2_2_inspection.Configuration.Resolver.{
  Machine, TomlFile, absent, broken, table, read_table, check_schema_version, load_toml,
  load_config,
}

-- The schema version that the loader takes: 1, or the Boolean that Python finds equal to it.
abbrev pub HasVersion : Fields → Type 0
HasVersion raw =
    (find "schema_version" raw ≡ some (int (pos 1)))
    ⊎ (find "schema_version" raw ≡ some (bool true))

neither : {A B C : Type 0} → (A → ⊥) → (B → ⊥) → (C → ⊥) → A ↔ (B ⊎ C)
neither f g h = (λ a. absurd (f a), λ k. elim k [ inl b ↦ absurd (g b) | inr c ↦ absurd (h c) ])

check_schema_version_iff :
    (o : Option Json)
    → (check_schema_version (or_null o) ≡ ok tt)
      ↔ ((o ≡ some (int (pos 1))) ⊎ (o ≡ some (bool true)))
check_schema_version_iff none = neither (λ h. cc) (λ h. cc) (λ h. cc)
check_schema_version_iff (some null) = neither (λ h. cc) (λ h. cc) (λ h. cc)
check_schema_version_iff (some (bool true)) = (λ h. inr refl, λ h. refl)
check_schema_version_iff (some (bool false)) = neither (λ h. cc) (λ h. cc) (λ h. cc)
check_schema_version_iff (some (int (pos zero))) = neither (λ h. cc) (λ h. cc) (λ h. cc)
check_schema_version_iff (some (int (pos (suc zero)))) = (λ h. inl refl, λ h. refl)
check_schema_version_iff (some (int (pos (suc (suc n))))) = neither (λ h. cc) (λ h. cc) (λ h. cc)
check_schema_version_iff (some (int (negsuc n))) = neither (λ h. cc) (λ h. cc) (λ h. cc)
check_schema_version_iff (some (real r)) = neither (λ h. cc) (λ h. cc) (λ h. cc)
check_schema_version_iff (some (str s)) = neither (λ h. cc) (λ h. cc) (λ h. cc)
check_schema_version_iff (some (arr xs)) = neither (λ h. cc) (λ h. cc) (λ h. cc)
check_schema_version_iff (some (tuple xs)) = neither (λ h. cc) (λ h. cc) (λ h. cc)
check_schema_version_iff (some (obj fields)) = neither (λ h. cc) (λ h. cc) (λ h. cc)

-- A config that is read from a file and has the id.
pub record IsRead (machine : Machine) (id_of : BaseConfig → Result ConfigError String)
    (path : FilePath) (id : String) (config : BaseConfig) : Type 0 where
  pub at_path : config.path ≡ path
  pub from_file : machine.toml path ≡ table config.raw
  pub version : HasVersion config.raw
  pub named : id_of config ≡ ok id

read_table-eq-ok :
    (file : TomlFile) {raw : Fields}
    → read_table file ≡ ok raw
    → (file ≡ table raw) × HasVersion raw
read_table-eq-ok absent h = cc
read_table-eq-ok broken h = cc
read_table-eq-ok (table fields) h =
    let (_, checked, same) =
      >>=-eq-ok (check_schema_version (or_null (find "schema_version" fields))) (λ _. ok fields)
        h in
    let same : fields ≡ _ = ok-injective same in
    (ap table same, subst HasVersion same ((check_schema_version_iff _).0 checked))

read_table-ok :
    (file : TomlFile) (raw : Fields) → file ≡ table raw → HasVersion raw → read_table file ≡ ok raw
read_table-ok file raw h version =
    ap read_table h
    ∙ >>=-ok (check_schema_version (or_null (find "schema_version" raw))) (λ _. ok raw)
        ((check_schema_version_iff (find "schema_version" raw)).1 version) refl

pub load_config-IsRead :
    (machine : Machine) (path : FilePath) (id_of : BaseConfig → Result ConfigError String)
    (id : String) {config : BaseConfig}
    → load_config machine path id_of id ≡ ok config
    → IsRead machine id_of path id config
unfolding load_config
load_config-IsRead machine path id_of id h =
    let (raw, loaded, h₁) = >>=-eq-ok (load_toml machine path) _ h in
    let config : BaseConfig = record { path = path; raw = raw } in
    let (found, named, h₂) = >>=-eq-ok (id_of config) _ h₁ in
    let (same, h₃) = ensure-eq-ok (str_eq found id) _ (ok config) h₂ in
    let (from_file, version) = read_table-eq-ok (machine.toml path) loaded in
    subst (IsRead machine id_of path id) (ok-injective h₃) (record {
      at_path = refl;
      from_file = from_file;
      version = version;
      named = named ∙ ap ok ((eq_iff found id).0 same);
    })

pub load_config-ok :
    (machine : Machine) (path : FilePath) (id_of : BaseConfig → Result ConfigError String)
    (id : String) (config : BaseConfig)
    → IsRead machine id_of path id config
    → load_config machine path id_of id ≡ ok config
unfolding load_config
load_config-ok machine path id_of id config read =
    let made : BaseConfig = record { path = path; raw = config.raw } in
    let same : config ≡ made = ap (λ p. record { path = p; raw = config.raw }) read.at_path in
    >>=-ok (load_toml machine path) _
      (read_table-ok (machine.toml path) config.raw read.from_file read.version)
      (>>=-ok (id_of made) _ (subst (λ c. id_of c ≡ ok id) same read.named) (
        >>=-ok (ensure (str_eq id id) id_mismatch) _
          (ap (λ t. ensure t id_mismatch) ((eq_iff id id).1 refl)) (ap ok (sym same))))
