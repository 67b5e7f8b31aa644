-- ===== src/Datasets/Conversion.antt =====
-- What a row of the `datasets` library becomes (datasets/resolver.py).
use jpapt_v2_2_inspection.Base.{
  ℕ, ◌≡◌, refl, sym, ap, subst, ◌∙◌, ◌⊎◌, inl, inr, ◌++◌, false, if◌then◌else◌, String, Option,
  none, some, List, [], ◌∷◌, All, ok, ok-injective, >>=-eq-ok, Bool-cases, Result, require, eq_iff,
}
use jpapt_v2_2_inspection.Base.Int.{ℤ, pos}
use jpapt_v2_2_inspection.Evaluation.Models.{Float64}
use jpapt_v2_2_inspection.Base.Json.{
  Json, null, bool, int, real, str, arr, tuple, obj, Fields, find,
}
use Prim.Native.String.{◌++◌ as ◌<>◌}
use jpapt_v2_2_inspection.Datasets.Models.{
  FloatTests, is_empty, DatasetError, no_audio, no_transcription, conversion, DatasetRecord,
  validate_record,
}
use jpapt_v2_2_inspection.Datasets.Rows.{
  Conversions, first_present, first_text, source_id_from, find_audio, find_transcription,
  find_source_id, audio_path, sample_rate, duration, make_identity, convert_row, nonempty,
  identity_from, array_seconds, in_dict, first_value,
}

-- The first of the keys whose value in the row will do, with what it gives.
pub record IsFirst {A : Type 0} (gives : Option Json → Option A) (row : Fields) (keys : List String)
    (a : A) : Type 0 where
  pub before : List String
  pub key : String
  pub after : List String
  pub among : keys ≡ before ++ key ∷ after
  pub there : gives (find key row) ≡ some a
  pub others : All (λ k. gives (find k row) ≡ none) before

-- No key will do.
abbrev pub NoneOf : {A : Type 0} → (Option Json → Option A) → Fields → List String → Type 0
NoneOf gives row = All (λ k. gives (find k row) ≡ none)

-- A value, else another.
abbrev or_first : {A : Type 0} → Option A → Option A → Option A
or_first none rest = rest
or_first (some a) rest = some a

module _ {A : Type 0} (gives : Option Json → Option A) (row : Fields)
    (first : List String → Option A) (at_end : first [] ≡ none)
    (step : (key : String) (keys : List String)
      → first (key ∷ keys) ≡ or_first (gives (find key row)) (first keys)) where
  -- A search by these steps finds the first key that will do, or none will.
  search-IsFirst : (keys : List String) (a : A) → first keys ≡ some a → IsFirst gives row keys a
  search-IsFirst [] a h = let e = at_end in cc
  search-IsFirst (key ∷ keys) a h =
      by_value (search-IsFirst keys a) (gives (find key row)) refl (sym (step key keys) ∙ h)
    where
      by_value :
          (first keys ≡ some a → IsFirst gives row keys a)
          → (o : Option A) → gives (find key row) ≡ o
          → or_first o (first keys) ≡ some a
          → IsFirst gives row (key ∷ keys) a
      by_value tail none e k =
          let later = tail k in
          record {
            before = key ∷ later.before;
            key = later.key;
            after = later.after;
            among = ap (λ (l : List String). key ∷ l) later.among;
            there = later.there;
            others = (e, later.others);
          }
      by_value tail (some b) e k = record {
        before = [];
        key = key;
        after = keys;
        among = refl;
        there = e ∙ k;
        others = tt;
      }

  search-NoneOf : (keys : List String) → first keys ≡ none → NoneOf gives row keys
  search-NoneOf [] h = tt
  search-NoneOf (key ∷ keys) h =
      by_value (search-NoneOf keys) (gives (find key row)) refl (sym (step key keys) ∙ h)
    where
      by_value :
          (first keys ≡ none → NoneOf gives row keys)
          → (o : Option A) → gives (find key row) ≡ o
          → or_first o (first keys) ≡ none
          → NoneOf gives row (key ∷ keys)
      by_value tail none e k = (e, tail k)
      by_value tail (some b) e k = cc

-- The value itself.
abbrev pub value : Option Json → Option Json
value o = o

-- A text.
abbrev pub text : Option Json → Option String
text (some (str s)) = some s
text _ = none

-- A value other than None.
abbrev pub known : Option Json → Option Json
known (some null) = none
known o = o

-- The keys of a row, in the order in which they are tried.
abbrev pub audio_keys : List String
audio_keys = "audio" ∷ "speech" ∷ "waveform" ∷ []

abbrev pub text_keys : List String
text_keys = "transcription" ∷ "sentence" ∷ "text" ∷ "transcript" ∷ []

abbrev pub id_keys : List String
id_keys = "id" ∷ "utt_id" ∷ "utterance_id" ∷ "client_id" ∷ []

abbrev pub duration_keys : List String
duration_keys = "duration" ∷ "duration_sec" ∷ "seconds" ∷ []

required : {A : Type 0} (o : Option A) (e : DatasetError) {a : A} → require o e ≡ ok a → o ≡ some a
required none e k = cc
required (some a) e k = ap some (ok-injective k)

found_audio :
    (row : Fields) (audio : Json) → find_audio row ≡ ok audio → IsFirst value row audio_keys audio
unfolding find_audio first_present
found_audio row audio h =
    search-IsFirst value row (λ keys. first_present keys row) refl
      (λ key keys. step (find key row) (first_present keys row)) audio_keys audio
      (required _ no_audio h)
  where
    step : (o rest : Option Json) → (elim o [ some v ↦ some v | none ↦ rest ]) ≡ or_first o rest
    step none rest = refl
    step (some v) rest = refl

found_text :
    (row : Fields) (said : String)
    → find_transcription row ≡ ok said
    → IsFirst text row text_keys said
unfolding find_transcription first_text
found_text row said h =
    search-IsFirst text row (λ keys. first_text keys row) refl
      (λ key keys. step (find key row) (first_text keys row)) text_keys said
      (required _ no_transcription h)
  where
    step :
        (o : Option Json) (rest : Option String)
        → (elim o [ some v ↦ elim v [ str s ↦ some s | _ ↦ rest ] | none ↦ rest ])
          ≡ or_first (text o) rest
    step none rest = refl
    step (some null) rest = refl
    step (some (bool b)) rest = refl
    step (some (int n)) rest = refl
    step (some (real r)) rest = refl
    step (some (str s)) rest = refl
    step (some (arr xs)) rest = refl
    step (some (tuple xs)) rest = refl
    step (some (obj fields)) rest = refl

module _ (python : Conversions) where
  -- The text of a value other than None, unless it is empty.
  abbrev pub named : Option Json → Option String
  named none = none
  named (some null) = none
  named (some v) = if is_empty (python.text_of v) then none else some (python.text_of v)

  id_step :
      (o : Option Json) (rest : Option String)
      → (elim o [
        | some v ↦ elim v [
          | null ↦ rest
          | other ↦ if is_empty (python.text_of other) then rest else some (python.text_of other)
        ]
        | none ↦ rest
      ])
        ≡ or_first (named o) rest
  id_step none rest = refl
  id_step (some null) rest = refl
  id_step (some v) rest = elim (Bool-cases (is_empty (python.text_of v))) [
    | inl e ↦ rw e refl
    | inr e ↦ rw e refl
  ]

  -- A text that is missing or empty.
  abbrev pub Missing : Option String → Type 0
  Missing o = (o ≡ none) ⊎ (o ≡ some "")

  -- A record is named by its source id, else by its path, else by its index.
  abbrev pub IsIdentity : Option String → Option String → ℕ → String → Type 0
  IsIdentity source_id path index identity =
      ((s : String) × (source_id ≡ some s) × (is_empty s ≡ false) × (identity ≡ "id:" <> s))
      ⊎ (Missing source_id
          × ((p : String) × (path ≡ some p) × (is_empty p ≡ false) × (identity ≡ "path:" <> p)))
      ⊎ (Missing source_id × Missing path × (identity ≡ "index:" <> python.int_text (pos index)))

  -- What counts as missing, and what does not.
  nonempty-cases :
      (o : Option String)
      → (Missing o × (nonempty python o ≡ none))
        ⊎ ((s : String) × (o ≡ some s) × (is_empty s ≡ false) × (nonempty python o ≡ some s))
  nonempty-cases none = inl (inl refl, refl)
  nonempty-cases (some s) = elim (Bool-cases (is_empty s)) [
    | inl e ↦ inl (inr (ap some ((eq_iff s "").0 e)), rw e refl)
    | inr e ↦ inr (s, refl, e, rw e refl)
  ]

  make_identity-IsIdentity :
      (source_id path : Option String) (index : ℕ)
      → IsIdentity source_id path index (make_identity python source_id path index)
  unfolding make_identity
  make_identity-IsIdentity source_id path index = elim (nonempty-cases source_id) [
    | inr (s, e, f, k) ↦
        inl (s, e, f, ap (λ o. identity_from python o (nonempty python path) index) k)
    | inl (missing, k) ↦ elim (nonempty-cases path) [
      | inr (p, e, f, l) ↦ inr (
          inl (
            missing,
            (
              p,
              e,
              f,
              ap (λ o. identity_from python o (nonempty python path) index) k
                  ∙ ap (λ o. identity_from python none o index) l,
            ),
          ))
      | inl (absent, l) ↦ inr (
          inr (
            missing,
            absent,
            ap (λ o. identity_from python o (nonempty python path) index) k
                ∙ ap (λ o. identity_from python none o index) l,
          ))
    ]
  ]

  -- The row's source id: the first key's that has one, or no key has one.
  abbrev pub IsSourceId : Fields → Option String → Type 0
  IsSourceId row none = NoneOf named row id_keys
  IsSourceId row (some s) = IsFirst named row id_keys s

  found_id : (row : Fields) (o : Option String) → find_source_id python row ≡ o → IsSourceId row o
  unfolding find_source_id source_id_from
  found_id row none h =
      search-NoneOf named row (λ keys. source_id_from python keys row) refl
        (λ key keys. id_step (find key row) (source_id_from python keys row)) id_keys h
  found_id row (some s) h =
      search-IsFirst named row (λ keys. source_id_from python keys row) refl
        (λ key keys. id_step (find key row) (source_id_from python keys row)) id_keys s h

  -- The row's duration: the number of the first key that has a value, or that of the audio's array.
  abbrev pub IsDuration : Fields → Json → Option ℤ → Float64 → Type 0
  IsDuration row audio rate seconds =
      ((v : Json) × IsFirst known row duration_keys v × (python.float_of v ≡ some seconds))
      ⊎ (NoneOf known row duration_keys
          × (array_seconds python (in_dict "array" audio) rate ≡ ok seconds))

  value_step :
      (o rest : Option Json)
      → (elim o [ some v ↦ elim v [ null ↦ rest | other ↦ some other ] | none ↦ rest ])
        ≡ or_first (known o) rest
  value_step none rest = refl
  value_step (some null) rest = refl
  value_step (some v) rest = refl

  found_duration :
      (row : Fields) (audio : Json) (rate : Option ℤ) (seconds : Float64)
      → duration python row audio rate ≡ ok seconds
      → IsDuration row audio rate seconds
  unfolding duration first_value
  found_duration row audio rate seconds h = by_value (first_value duration_keys row) refl h
    where
      step :
          (key : String) (keys : List String)
          → first_value (key ∷ keys) row ≡ or_first (known (find key row)) (first_value keys row)
      step key keys = value_step (find key row) (first_value keys row)

      by_value :
          (o : Option Json)
          → first_value duration_keys row ≡ o
          → (elim o as (λ _. Result DatasetError Float64) [
            | some v ↦ require (python.float_of v) conversion
            | none ↦ array_seconds python (in_dict "array" audio) rate
          ])
            ≡ ok seconds
          → IsDuration row audio rate seconds
      by_value none e k =
          inr (search-NoneOf known row (λ keys. first_value keys row) refl step duration_keys e, k)
      by_value (some v) e k = inl (
        v,
        search-IsFirst known row (λ keys. first_value keys row) refl step duration_keys v e,
        required (python.float_of v) conversion k,
      )

  -- What is known of a row's record.
  pub record IsConverted (floats : FloatTests) (row : Fields) (index : ℕ) (r : DatasetRecord)
      : Type 0 where
    pub valid : validate_record floats r ≡ ok tt
    pub place : r.index ≡ pos index
    pub heard : IsFirst value row audio_keys r.audio
    pub said : IsFirst text row text_keys r.transcription
    pub sourced : IsSourceId row r.source_id
    pub identified : IsIdentity r.source_id r.audio_path index r.identity
    pub path : r.audio_path ≡ audio_path python r.audio
    pub rated : sample_rate python r.audio ≡ ok r.sample_rate_hz
    pub timed : IsDuration row r.audio r.sample_rate_hz r.duration_sec

  -- If a row converts, its record passes its own validation, has the row's index, and its audio,
  -- transcription and source id are those of the first key that has one, in the order in which the
  -- code tries them. It is named by its source id, else by its audio's path, else by its index,
  -- where an empty text counts as missing; its duration is the number of the first key that has a
  -- value, else that of the audio's array at the audio's sampling rate.
  pub convert_row-IsConverted :
      (floats : FloatTests) (row : Fields) (index : ℕ) (r : DatasetRecord)
      → convert_row python floats row index ≡ ok r
      → IsConverted floats row index r
  unfolding convert_row
  convert_row-IsConverted floats row index r h =
      let (audio, heard, h₁) = >>=-eq-ok (find_audio row) _ h in
      let (transcription, said, h₂) = >>=-eq-ok (find_transcription row) _ h₁ in
      let (rate, rated, h₃) = >>=-eq-ok (sample_rate python audio) _ h₂ in
      let (seconds, timed, h₄) = >>=-eq-ok (duration python row audio rate) _ h₃ in
      let source_id = find_source_id python row in
      let path = audio_path python audio in
      let made : DatasetRecord = record {
        identity = make_identity python source_id path index;
        index = pos index;
        duration_sec = seconds;
        sample_rate_hz = rate;
        transcription = transcription;
        audio = audio;
        source_id = source_id;
        audio_path = path;
      } in
      let (_, valid, h₅) = >>=-eq-ok (validate_record floats made) _ h₄ in
      subst (IsConverted floats row index) (ok-injective h₅) (record {
        valid = valid;
        place = refl;
        heard = found_audio row audio heard;
        said = found_text row transcription said;
        sourced = found_id row source_id refl;
        identified = make_identity-IsIdentity source_id path index;
        path = refl;
        rated = rated;
        timed = found_duration row audio rate seconds timed;
      })
