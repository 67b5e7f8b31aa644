-- ===== src/Decoding/Tdt.antt =====
-- decoding/tdt.py: greedy token-and-duration transducer decoding.
-- The loop takes fuel; the bound that `greedy_tdt_decode` gives it is enough (Tdt/Termination).
pub mod Termination
pub mod Spacing
pub mod Reading
pub mod Trace
pub mod Config
pub mod Total
use jpapt_v2_2_inspection.Base.{
  ℕ, zero, suc, ◌+◌, ◌*◌, max, String, Bool, true, false, Option, none, some, List, [], ◌∷◌, ◌++◌,
  map, Result, ok, err, ◌>>=◌, ◌>>◌, raise_if, ensure, require, ltb, leb, ◌==◌, if◌then◌else◌,
  length, get_elem?, any,
}
use jpapt_v2_2_inspection.Base.Int.{ℤ, pos, is_negative, to_ℕ, ltb_ℤ, eq_ℤ}

-- The exceptions of the decoder; `callback` carries whatever a callback raised.
pub data TdtError : Type 0 where
  empty_durations negative_duration max_symbols_too_small : TdtError
  batch_size bad_rank duration_size empty_argmax index_error : TdtError
  callback : String → TdtError

-- A configuration that `__post_init__` has accepted: durations and the bound are numbers.
pub record TdtDecoderConfig : Type 0 where
  pub blank_id : ℤ
  pub bos_id : ℤ
  pub durations : List ℕ
  pub max_symbols_per_step : ℕ

is_nil : List ℤ → Bool
is_nil [] = true
is_nil (_ ∷ _) = false

unfoldable pub post_init : ℤ → ℤ → List ℤ → ℤ → Result TdtError TdtDecoderConfig
unfolding is_nil
post_init blank_id bos_id durations max_symbols = do
  raise_if (is_nil durations) empty_durations
  raise_if (any is_negative durations) negative_duration
  raise_if (ltb_ℤ max_symbols 1) max_symbols_too_small
  ok (record {
    blank_id = blank_id;
    bos_id = bos_id;
    durations = map to_ℕ durations;
    max_symbols_per_step = to_ℕ max_symbols;
  })

pub record TdtDecodeResult : Type 0 where
  pub token_ids : List ℤ
  pub frame_positions : List ℕ
  pub durations : List ℕ

-- The local variables of the loop.
pub record Loop (S : Type 0) : Type 0 where
  pub t : ℕ
  pub symbols_at_t : ℕ
  pub last_token : ℤ
  pub state : S
  pub emitted : List ℤ
  pub positions : List ℕ
  pub emitted_durations : List ℕ

abbrev pub start : {S : Type 0} → TdtDecoderConfig → S → Loop S
start config initial_state = record {
  t = 0;
  symbols_at_t = 0;
  last_token = config.bos_id;
  state = initial_state;
  emitted = [];
  positions = [];
  emitted_durations = [];
}

module _ {S : Type 0} (config : TdtDecoderConfig) where
  -- The end of the loop's body, after an emission.
  pub settle : ℕ → Loop S → Loop S
  settle duration l =
      if ltb 0 duration
      then record l { t = l.t + duration; symbols_at_t = 0 }
      else if leb config.max_symbols_per_step l.symbols_at_t
      then record l { t = l.t + 1; symbols_at_t = 0 }
      else l

  -- The body of the loop after both argmax calls.
  pub advance : Loop S → ℤ → ℕ → S → Loop S
  unfolding settle
  advance l token_id duration next_state =
      if eq_ℤ token_id config.blank_id
      then record l { t = l.t + max 1 duration; symbols_at_t = 0 }
      else settle duration (record l {
        emitted = l.emitted ++ token_id ∷ [];
        positions = l.positions ++ l.t ∷ [];
        emitted_durations = l.emitted_durations ++ duration ∷ [];
        last_token = token_id;
        state = next_state;
        symbols_at_t = l.symbols_at_t + 1;
      })

pub data EncoderFrames (Frame : Type 0) : Type 0 where
  rank2 : List Frame → EncoderFrames Frame
  rank3 : List (List Frame) → EncoderFrames Frame
  other_rank : EncoderFrames Frame

-- The checks on the rank of the encoder's output.
unfoldable pub frames_of : {Frame : Type 0} → EncoderFrames Frame → Result TdtError (List Frame)
frames_of (rank2 frames) = ok frames
frames_of (rank3 (frames ∷ [])) = ok frames
frames_of (rank3 _) = err batch_size
frames_of other_rank = err bad_rank

-- `np.argmax` of a flat vector (`none`: it raised on an empty one) and the two callbacks.
module _ {Frame P S F : Type 0} (argmax : List F → Option ℕ)
    (predictor_step : ℤ → S → Result TdtError (P × S))
    (joint_step : Frame → P → Result TdtError (List F × List F)) (config : TdtDecoderConfig) where
  -- What a round does with the logits that the joint network returned.
  pub choose : List F → List F → Loop S → S → Result TdtError (Loop S)
  choose token_values duration_values l next_state = do
    ensure (length duration_values == length config.durations) duration_size
    token_id ← require (argmax token_values) empty_argmax
    index ← require (argmax duration_values) empty_argmax
    duration ← require (get_elem? config.durations index) index_error
    ok (advance config l (pos token_id) duration next_state)

  -- One round of the loop.
  pub step : List Frame → Loop S → Result TdtError (Loop S)
  unfolding choose
  step frames l = do
    (predictor, next_state) ← predictor_step l.last_token l.state
    frame ← require (get_elem? frames l.t) index_error
    (token_values, duration_values) ← joint_step frame predictor
    choose token_values duration_values l next_state

  -- `none`: the fuel ran out before the loop's test failed.
  pub decode_loop : ℕ → List Frame → Loop S → Option (Result TdtError (Loop S))
  decode_loop zero frames l = none
  decode_loop (suc fuel) frames l = elim (ltb l.t (length frames)) [
    | false ↦ some (ok l)
    | true ↦ elim (step frames l) [ err e ↦ some (err e) | ok l' ↦ decode_loop fuel frames l' ]
  ]

  abbrev pub result_of : Loop S → TdtDecodeResult
  result_of l = record {
    token_ids = l.emitted;
    frame_positions = l.positions;
    durations = l.emitted_durations;
  }

  abbrev pub finish : Option (Result TdtError (Loop S)) → Option (Result TdtError TdtDecodeResult)
  finish none = none
  finish (some (err e)) = some (err e)
  finish (some (ok l)) = some (ok (result_of l))

  abbrev pub fuel_for : List Frame → ℕ
  fuel_for frames = length frames * config.max_symbols_per_step + 1

  abbrev pub decode_frames :
      Result TdtError (List Frame) → S → Option (Result TdtError TdtDecodeResult)
  decode_frames (err e) initial_state = some (err e)
  decode_frames (ok frames) initial_state =
      finish (decode_loop (fuel_for frames) frames (start config initial_state))

  unfoldable pub greedy_tdt_decode :
      EncoderFrames Frame → S → Option (Result TdtError TdtDecodeResult)
  unfolding frames_of step decode_loop advance settle
  greedy_tdt_decode encoder_frames initial_state =
      decode_frames (frames_of encoder_frames) initial_state
