-- ===== src/Decoding/Tdt/Total.antt =====
-- The decoder returns, and raises nothing, where its callbacks do and fit the configuration.
use jpapt_v2_2_inspection.Base.{
  ℕ, ◌<◌, ◌≡◌, Option, some, List, Result, ok, arith, length, get_elem?_of_lt, ==_iff, subst, sym,
  ap,
}
use jpapt_v2_2_inspection.Base.Int.{ℤ, pos}
use jpapt_v2_2_inspection.Decoding.Tdt.{
  TdtError, TdtDecoderConfig, TdtDecodeResult, Loop, start, advance, EncoderFrames, frames_of,
  choose, step, finish, decode_frames, result_of, greedy_tdt_decode,
}
use jpapt_v2_2_inspection.Decoding.Tdt.Termination.{
  run_returns, decode_loop-ne-none, rounds_at_start,
}

-- The documented behaviour of `np.argmax` on a vector, and callbacks that return logits of the
-- sizes that the configuration asks for.
pub record IsWorking {Frame P S F : Type 0} (argmax : List F → Option ℕ)
    (predictor_step : ℤ → S → Result TdtError (P × S))
    (joint_step : Frame → P → Result TdtError (List F × List F)) (durations : ℕ) : Type 0 where
  pub picks : (xs : List F) → 0 < length xs → (i : ℕ) × (argmax xs ≡ some i) × (i < length xs)
  pub predicts : (x : ℤ) (s : S) → (r : P × S) × (predictor_step x s ≡ ok r)
  pub joins :
      (f : Frame) (p : P)
      → (r : List F × List F) × (joint_step f p ≡ ok r)
        × (0 < length r.0)
        × (length r.1 ≡ durations)

module _ {Frame P S F : Type 0} (argmax : List F → Option ℕ)
    (predictor_step : ℤ → S → Result TdtError (P × S))
    (joint_step : Frame → P → Result TdtError (List F × List F)) (config : TdtDecoderConfig)
    (w : IsWorking argmax predictor_step joint_step (length config.durations))
    (nonempty : 0 < length config.durations) where
  choose-returns :
      (tv dv : List F) (l : Loop S) (s : S)
      → 0 < length tv
      → length dv ≡ length config.durations
      → (l' : Loop S) × (choose argmax predictor_step joint_step config tv dv l s ≡ ok l')
  unfolding choose
  choose-returns tv dv l s some_token same =
      let (token, at_token, _) = w.picks tv some_token in
      let (index, at_index, below) = w.picks dv (omega arith) in
      let (duration, at_duration) = get_elem?_of_lt config.durations index (omega arith) in
      (
        advance config l (pos token) duration s,
        rw ((==_iff (length dv) (length config.durations)).1 same, at_token, at_index, at_duration),
      )

  step-returns :
      (frames : List Frame) (l : Loop S)
      → l.t < length frames
      → (l' : Loop S) × (step argmax predictor_step joint_step config frames l ≡ ok l')
  unfolding step
  step-returns frames l before =
      let (ps, predicted) = w.predicts l.last_token l.state in
      let (frame, at_frame) = get_elem?_of_lt frames l.t before in
      let (logits, joined, some_token, same) = w.joins frame ps.0 in
      let (l', chosen) = choose-returns logits.0 logits.1 l ps.1 some_token same in
      (l', rw (predicted, at_frame, joined) chosen)

  decode_frames-returns :
      (frames : List Frame) (s : S)
      → 0 < config.max_symbols_per_step
      → (r : TdtDecodeResult) × (decode_frames argmax predictor_step joint_step config (ok frames) s
          ≡ some (ok r))
  decode_frames-returns frames s h =
      let (l, ran) =
        run_returns argmax predictor_step joint_step config frames (step-returns frames) _
          (start config s)
          (decode_loop-ne-none argmax predictor_step joint_step config _ frames (start config s) h
            (rounds_at_start (length frames) config.max_symbols_per_step)) in
      (
        result_of argmax predictor_step joint_step config l,
        ap (finish argmax predictor_step joint_step config) ran,
      )

  -- With some duration and room for a symbol at each frame, accepted frames decode to a result, if
  -- the callbacks return, the joint network with a token logit and as many duration logits as there
  -- are durations, and argmax picks an index of each non-empty vector.
  pub greedy_tdt_decode-returns :
      (encoder_frames : EncoderFrames Frame) (initial_state : S) (frames : List Frame)
      → 0 < config.max_symbols_per_step
      → frames_of encoder_frames ≡ ok frames
      → (r : TdtDecodeResult) × (greedy_tdt_decode argmax predictor_step joint_step config
            encoder_frames initial_state
          ≡ some (ok r))
  unfolding greedy_tdt_decode
  greedy_tdt_decode-returns encoder_frames s frames h accepted =
      subst
        (λ f.
          (r : TdtDecodeResult) × (decode_frames argmax predictor_step joint_step config f s
            ≡ some (ok r)))
        (sym accepted) (decode_frames-returns frames s h)
