-- ===== src/Datasets/Rows.antt =====
-- datasets/resolver.py: `HuggingFaceDatasetBackend._convert_row`. A row of the `datasets` library is
-- a dictionary of JSON values.
use jpapt_v2_2_inspection.Base.{
  ℕ, zero, String, Bool, true, false, not, Option, none, some, List, [], ◌∷◌, Result, ok, err,
  ◌>>=◌, ◌>>◌, ensure, require, if◌then◌else◌, length,
}
use jpapt_v2_2_inspection.Base.Int.{ℤ, pos, leb_ℤ}
use jpapt_v2_2_inspection.Base.Json.{
  truthy, Json, null, bool, int, real, str, arr, tuple, obj, Real, whole, Items, nil, cons, Fields,
  end, field, find, items,
}
use jpapt_v2_2_inspection.Evaluation.Models.{Float64}
use jpapt_v2_2_inspection.Datasets.Models.{
  FloatTests, DatasetError, no_audio, no_transcription, no_duration, conversion, is_empty,
  DatasetRecord, validate_record,
}
use Prim.Native.String.{◌++◌ as ◌<>◌}

-- Python's conversions: `str(v)`, `int(v)`, `float(v)` (`none`: it raises), `len(a) / rate`.
pub record Conversions : Type 0 where
  pub text_of : Json → String
  pub int_text : ℤ → String
  pub int_of : Json → Option ℤ
  pub float_of : Json → Option Float64
  pub seconds : ℕ → ℤ → Float64

-- The first key that the row has.
unfoldable pub first_present : List String → Fields → Option Json
unfolding find
first_present [] row = none
first_present (key ∷ keys) row = elim (find key row) [
  | some v ↦ some v
  | none ↦ first_present keys row
]

-- The first key whose value is a text.
unfoldable pub first_text : List String → Fields → Option String
unfolding find
first_text [] row = none
first_text (key ∷ keys) row =
    let rest = first_text keys row in
    elim (find key row) [ some v ↦ elim v [ str s ↦ some s | _ ↦ rest ] | none ↦ rest ]

-- The first key with a value other than None.
unfoldable pub first_value : List String → Fields → Option Json
unfolding find
first_value [] row = none
first_value (key ∷ keys) row =
    let rest = first_value keys row in
    elim (find key row) [ some v ↦ elim v [ null ↦ rest | other ↦ some other ] | none ↦ rest ]

-- The value under a key of a value that may be a dictionary.
abbrev pub in_dict : String → Json → Option Json
in_dict key (obj fields) = find key fields
in_dict key _ = none

unfoldable pub find_audio : Fields → Result DatasetError Json
unfolding first_present
find_audio row = require (first_present ("audio" ∷ "speech" ∷ "waveform" ∷ []) row) no_audio

unfoldable pub find_transcription : Fields → Result DatasetError String
unfolding first_text
find_transcription row =
    require (first_text ("transcription" ∷ "sentence" ∷ "text" ∷ "transcript" ∷ []) row)
      no_transcription

module _ (python : Conversions) where
  -- The loop over the keys skips a value that reads as the empty text.
  unfoldable pub source_id_from : List String → Fields → Option String
  unfolding find
  source_id_from [] row = none
  source_id_from (key ∷ keys) row =
      let rest = source_id_from keys row in
      elim (find key row) [
        | some v ↦ elim v [
          | null ↦ rest
          | other ↦ if is_empty (python.text_of other) then rest else some (python.text_of other)
        ]
        | none ↦ rest
      ]

  unfoldable pub find_source_id : Fields → Option String
  unfolding source_id_from
  find_source_id row = source_id_from ("id" ∷ "utt_id" ∷ "utterance_id" ∷ "client_id" ∷ []) row

  abbrev pub truthy_text : Option Json → Option String
  truthy_text none = none
  truthy_text (some v) = if truthy v then some (python.text_of v) else none

  unfoldable pub audio_path : Json → Option String
  unfolding find
  audio_path (obj fields) = truthy_text (find "path" fields)
  audio_path (str s) = some s
  audio_path _ = none

  -- `a or b`, of values that `get` returned.
  abbrev pub or_else : Option Json → Option Json → Option Json
  or_else none b = b
  or_else (some v) b = if truthy v then some v else b

  abbrev pub int_or_none : Option Json → Result DatasetError (Option ℤ)
  int_or_none none = ok none
  int_or_none (some null) = ok none
  int_or_none (some v) = elim (python.int_of v) [ none ↦ err conversion | some n ↦ ok (some n) ]

  unfoldable pub sample_rate : Json → Result DatasetError (Option ℤ)
  unfolding find
  sample_rate audio =
      int_or_none (or_else (in_dict "sampling_rate" audio) (in_dict "sample_rate" audio))

  -- `len(v)`; `none`: it raises TypeError.
  abbrev pub len : Json → Option ℕ
  len (arr xs) = some (length (items xs))
  len (tuple xs) = some (length (items xs))
  len (str s) = some (length (jpapt_v2_2_inspection.Base.Text.codes s))
  len (obj fields) = some (length (jpapt_v2_2_inspection.Base.Json.keys fields))
  len _ = none

  abbrev pub array_seconds : Option Json → Option ℤ → Result DatasetError Float64
  array_seconds none rate = err no_duration
  array_seconds (some null) rate = err no_duration
  array_seconds (some array) none = err no_duration
  array_seconds (some array) (some rate) =
      if leb_ℤ rate 0
      then err no_duration
      else elim (len array) [ none ↦ err no_duration | some n ↦ ok (python.seconds n rate) ]

  unfoldable pub duration : Fields → Json → Option ℤ → Result DatasetError Float64
  unfolding first_value find
  duration row audio rate = elim (first_value ("duration" ∷ "duration_sec" ∷ "seconds" ∷ []) row) [
    | some v ↦ require (python.float_of v) conversion
    | none ↦ array_seconds (in_dict "array" audio) rate
  ]

  -- An empty id or path counts as missing.
  abbrev pub nonempty : Option String → Option String
  nonempty none = none
  nonempty (some s) = if is_empty s then none else some s

  abbrev pub identity_from : Option String → Option String → ℕ → String
  identity_from (some s) path index = "id:" <> s
  identity_from none (some p) index = "path:" <> p
  identity_from none none index = "index:" <> python.int_text (pos index)

  unfoldable pub make_identity : Option String → Option String → ℕ → String
  make_identity source_id path index = identity_from (nonempty source_id) (nonempty path) index

  unfoldable pub convert_row : FloatTests → Fields → ℕ → Result DatasetError DatasetRecord
  unfolding find_audio find_transcription find_source_id audio_path sample_rate duration
      make_identity
  convert_row floats row index = do
    audio ← find_audio row
    transcription ← find_transcription row
    let source_id = find_source_id row
    let path = audio_path audio
    let identity = make_identity source_id path index
    rate ← sample_rate audio
    seconds ← duration row audio rate
    let record_of : DatasetRecord = record {
      identity = identity;
      index = pos index;
      duration_sec = seconds;
      sample_rate_hz = rate;
      transcription = transcription;
      audio = audio;
      source_id = source_id;
      audio_path = path;
    }
    validate_record floats record_of
    ok record_of
