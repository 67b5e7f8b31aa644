-- ===== src/Contracts/Checks.antt =====
-- The checks that the contracts share: `require_…` and `reject_nulls` of contracts.py, and the readers
-- `_object`, `_exact`, `_string`, … of contract_io.py and generated_candidate_io.py.
use jpapt_v2_2_inspection.Base.{
  ℕ, suc, String, Bool, true, false, ◌&&◌, ◌||◌, Option, some, List, ◌++◌, Result, ok, err, ◌>>◌,
  ensure, raise_if, length, take, drop, all, any, leb, ◌==◌, str_eq,
}
use jpapt_v2_2_inspection.Base.Int.{ℤ, pos}
use jpapt_v2_2_inspection.Base.Text.{codes}
use jpapt_v2_2_inspection.Base.Json.{
  Json, null, bool, int, real, str, arr, tuple, obj, Items, nil, cons, Fields, end, field, keys,
}
use jpapt_v2_2_inspection.Evaluation.Metrics.Words.{same_text}
use jpapt_v2_2_inspection.Contracts.Strip.{is_blank}

pub data ContractError : Type 0 where
  blank not_sha256 not_commit not_version not_allowed has_null : ContractError
  not_object missing_field unknown_field not_text not_boolean not_integer not_array : ContractError
  bad_schema_version no_artifacts duplicate_entry not_positive decoder_mismatch : ContractError
  provider_mismatch no_candidate candidate_mismatch profile_mismatch : ContractError
  catalog_mismatch : ContractError

-- `[0-9a-fA-F]`
abbrev pub hex_digit : ℕ → Bool
hex_digit c = (leb 48 c && leb c 57) || (leb 97 c && leb c 102) || (leb 65 c && leb c 70)

unfoldable pub is_sha256 : String → Bool
is_sha256 s = length (codes s) == 64 && all hex_digit (codes s)

unfoldable pub is_commit : String → Bool
is_commit s = leb 7 (length (codes s)) && leb (length (codes s)) 64 && all hex_digit (codes s)

-- `^config-\d{6}$`, where `\d` is what Unicode counts as a decimal digit.
unfoldable pub is_config_version : (ℕ → Bool) → String → Bool
is_config_version decimal s =
    length (codes s) == 13
    && same_text (take 7 (codes s)) (codes "config-")
    && all decimal (drop 7 (codes s))

abbrev pub one_of : List String → String → Bool
one_of allowed s = any (str_eq s) allowed

-- `require_nonempty` and the checks that begin with it, with no result.
abbrev pub require_nonempty : String → Result ContractError (Unit {0})
require_nonempty s = raise_if (is_blank s) blank

abbrev pub require_sha256 : String → Result ContractError (Unit {0})
require_sha256 s = do require_nonempty s; ensure (is_sha256 s) not_sha256

abbrev pub require_git_commit : String → Result ContractError (Unit {0})
require_git_commit s = do require_nonempty s; ensure (is_commit s) not_commit

abbrev pub require_config_version : (ℕ → Bool) → String → Result ContractError (Unit {0})
require_config_version decimal s = do
  require_nonempty s
  ensure (is_config_version decimal s) not_version

abbrev pub require_one_of : List String → String → Result ContractError (Unit {0})
require_one_of allowed s = do require_nonempty s; ensure (one_of allowed s) not_allowed

-- Whether None stands anywhere in a value.
unfoldable mutual
  pub contains_null : Json → Bool
  contains_null null = true
  contains_null (bool b) = false
  contains_null (int n) = false
  contains_null (real r) = false
  contains_null (str s) = false
  contains_null (arr xs) = items_null xs
  contains_null (tuple xs) = items_null xs
  contains_null (obj fields) = fields_null fields

  pub items_null : Items → Bool
  items_null nil = false
  items_null (cons v rest) = contains_null v || items_null rest

  pub fields_null : Fields → Bool
  fields_null end = false
  fields_null (field k v rest) = contains_null v || fields_null rest

abbrev pub reject_nulls : Json → Result ContractError (Unit {0})
reject_nulls v = raise_if (contains_null v) has_null

-- `_object`
abbrev pub object_of : Option Json → Result ContractError Fields
object_of (some (obj fields)) = ok fields
object_of _ = err not_object

abbrev pub has_key : List String → String → Bool
has_key ks k = any (str_eq k) ks

-- `_exact`
unfoldable pub exact : List String → List String → Fields → Result ContractError (Unit {0})
unfolding keys
exact required optional value = do
  ensure (all (has_key (keys value)) required) missing_field
  ensure (all (has_key (required ++ optional)) (keys value)) unknown_field

-- `_string`, `_boolean` and `_positive_int` of `value.get(key)`.
abbrev pub string_of : Option Json → Result ContractError String
string_of (some (str s)) = do raise_if (is_blank s) not_text; ok s
string_of _ = err not_text

abbrev pub boolean_of : Option Json → Result ContractError Bool
boolean_of (some (bool b)) = ok b
boolean_of _ = err not_boolean

abbrev pub positive_of : Option Json → Result ContractError ℤ
positive_of (some (int (pos (suc n)))) = ok (pos (suc n))
positive_of _ = err not_integer

-- `n > 0`
abbrev pub is_positive : ℤ → Bool
is_positive (pos (suc n)) = true
is_positive _ = false

abbrev pub integer_of : Option Json → Result ContractError ℤ
integer_of (some (int n)) = ok n
integer_of _ = err bad_schema_version

abbrev pub array_of : Option Json → Result ContractError Items
array_of (some (arr xs)) = ok xs
array_of _ = err not_array
