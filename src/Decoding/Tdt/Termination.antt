-- ===== src/Decoding/Tdt/Termination.antt =====
-- The decoder's loop stops: each round moves on by a frame or uses up one of its symbols.
use jpapt_v2_2_inspection.Base.{
  ℕ, zero, suc, ◌+◌, ◌-◌, ◌*◌, ◌≤◌, ◌<◌, ◌≡◌, refl, ◌≢◌, Bool, true, false, Option, none, some,
  List, Result, ok, err, >>=-eq-ok, ltb, arith, length, get_elem?, inl, inr, ltb→lt, ensure-eq-ok,
  require-eq-ok, ok-injective, sym, subst, ◌∙◌, ◌==◌, ◌⊎◌,
}
use jpapt_v2_2_inspection.Base.Int.{ℤ, pos}
use jpapt_v2_2_inspection.Decoding.Tdt.{
  TdtError, TdtDecoderConfig, Loop, start, advance, EncoderFrames, frames_of, choose, step,
  decode_loop, finish, decode_frames, greedy_tdt_decode, duration_size, index_error, empty_argmax,
}

-- What a round does to the position: on with a fresh count, or one more symbol at the same frame.
abbrev pub Moves : {S : Type 0} → TdtDecoderConfig → Loop S → Loop S → Type 0
Moves config l l' =
    ((l.t < l'.t) × (l'.symbols_at_t ≡ 0))
    ⊎ ((l'.t ≡ l.t)
        × (l'.symbols_at_t ≡ l.symbols_at_t + 1)
        × (l'.symbols_at_t < config.max_symbols_per_step))

pub advance-Moves :
    {S : Type 0} (config : TdtDecoderConfig) (l : Loop S) (token_id : ℤ) (duration : ℕ) (s : S)
    → Moves config l (advance config l token_id duration s)
unfolding advance
advance-Moves config l token_id duration s = ground arith

-- The rounds that are left at most.
abbrev pub rounds_left : {S : Type 0} → TdtDecoderConfig → ℕ → Loop S → ℕ
rounds_left config time_steps l = (time_steps - l.t) * config.max_symbols_per_step - l.symbols_at_t

mul_gap : (a b m : ℕ) → suc b ≤ a → b * m + m ≤ a * m
mul_gap a b m h = grind arith

pub rounds_at_start : (time_steps m : ℕ) → (time_steps - 0) * m - 0 < time_steps * m + 1
rounds_at_start time_steps m = grind arith

rounds_left-decreases :
    {S : Type 0} (config : TdtDecoderConfig) (time_steps : ℕ) (l l' : Loop S)
    → l.t < time_steps
    → l.symbols_at_t < config.max_symbols_per_step
    → Moves config l l'
    → (rounds_left config time_steps l' < rounds_left config time_steps l)
      × (l'.symbols_at_t < config.max_symbols_per_step)
rounds_left-decreases config T l l' before room (inl (on, fresh)) = (
  omega (arith, mul_gap (T - l.t) (T - l'.t) config.max_symbols_per_step (omega arith)),
  omega arith,
)
rounds_left-decreases config T l l' before room (inr (same, one_more, room')) =
    (rw same (omega (arith, mul_gap (T - l.t) 0 config.max_symbols_per_step (omega arith))), room')

module _ {Frame P S F : Type 0} (argmax : List F → Option ℕ)
    (predictor_step : ℤ → S → Result TdtError (P × S))
    (joint_step : Frame → P → Result TdtError (List F × List F)) (config : TdtDecoderConfig) where
  choose-eq-ok :
      (token_values duration_values : List F) (l l' : Loop S) (s : S)
      → choose argmax predictor_step joint_step config token_values duration_values l s ≡ ok l'
      → (token_id : ℤ) × (index duration : ℕ) × (get_elem? config.durations index ≡ some duration)
        × (l' ≡ advance config l token_id duration s)
  unfolding choose
  choose-eq-ok tv dv l l' s h =
      let (_, h₁) = ensure-eq-ok (length dv == length config.durations) duration_size _ h in
      let (token_id, _, h₂) = require-eq-ok (argmax tv) empty_argmax _ h₁ in
      let (index, _, h₃) = require-eq-ok (argmax dv) empty_argmax _ h₂ in
      let (duration, e, h₄) = require-eq-ok (get_elem? config.durations index) index_error _ h₃ in
      (pos token_id, index, duration, e, sym (ok-injective h₄))

  -- A round that returns has advanced the loop by a duration of the configuration.
  pub step-eq-ok :
      (frames : List Frame) (l l' : Loop S)
      → step argmax predictor_step joint_step config frames l ≡ ok l'
      → (token_id : ℤ) × (index duration : ℕ) × (s : S) × (get_elem? config.durations index
          ≡ some duration)
        × (l' ≡ advance config l token_id duration s)
  unfolding step
  step-eq-ok frames l l' h =
      let (ps, _, h₁) = >>=-eq-ok (predictor_step l.last_token l.state) _ h in
      let (frame, _, h₂) = require-eq-ok (get_elem? frames l.t) index_error _ h₁ in
      let (logits, _, h₃) = >>=-eq-ok (joint_step frame ps.0) _ h₂ in
      let (token_id, index, duration, e, q) = choose-eq-ok logits.0 logits.1 l l' ps.1 h₃ in
      (token_id, index, duration, ps.1, e, q)

  abbrev pub next : List Frame → Loop S → Result TdtError (Loop S)
  next = step argmax predictor_step joint_step config

  step-Moves : (frames : List Frame) (l l' : Loop S) → next frames l ≡ ok l' → Moves config l l'
  step-Moves frames l l' h =
      let (token_id, _, duration, s, _, q) = step-eq-ok frames l l' h in
      rw q (advance-Moves config l token_id duration s)

  abbrev pub run : ℕ → List Frame → Loop S → Option (Result TdtError (Loop S))
  run = decode_loop argmax predictor_step joint_step config

  run-zero : (frames : List Frame) (l : Loop S) → run zero frames l ≡ none
  unfolding decode_loop
  run-zero frames l = refl

  -- The three ways in which a run with fuel goes on.
  pub data Round (fuel : ℕ) (frames : List Frame) (l : Loop S) : Type 0 where
    stops : length frames ≤ l.t → run (suc fuel) frames l ≡ some (ok l) → Round fuel frames l
    raises :
        (e : TdtError)
        → l.t < length frames
        → next frames l ≡ err e
        → run (suc fuel) frames l ≡ some (err e)
        → Round fuel frames l
    goes_on :
        (l' : Loop S)
        → l.t < length frames
        → next frames l ≡ ok l'
        → run (suc fuel) frames l ≡ run fuel frames l'
        → Round fuel frames l

  pub room_of : (fuel : ℕ) (frames : List Frame) (l : Loop S) → Round fuel frames l
  unfolding decode_loop
  room_of fuel frames l = split (ltb l.t (length frames)) refl (next frames l) refl
    where
      split :
          (b : Bool)
          → ltb l.t (length frames) ≡ b
          → (r : Result TdtError (Loop S)) → next frames l ≡ r
          → Round fuel frames l
      split false t r e = stops (ground arith) (rw (t, decode_loop))
      split true t (err x) e = raises x (ltb→lt _ _ t) e (rw (t, e, decode_loop))
      split true t (ok l') e = goes_on l' (ltb→lt _ _ t) e (rw (t, e, decode_loop))

  pub decode_loop-ne-none :
      (fuel : ℕ) (frames : List Frame) (l : Loop S)
      → l.symbols_at_t < config.max_symbols_per_step
      → rounds_left config (length frames) l < fuel
      → run fuel frames l ≢ none
  decode_loop-ne-none zero frames l room h = absurd (omega arith)
  decode_loop-ne-none (suc fuel) frames l room h =
      by_round (room_of fuel frames l) (decode_loop-ne-none fuel frames)
    where
      by_round :
          Round fuel frames l
          → ((l' : Loop S)
              → l'.symbols_at_t < config.max_symbols_per_step
              → rounds_left config (length frames) l' < fuel
              → run fuel frames l' ≢ none)
          → run (suc fuel) frames l ≢ none
      by_round (stops _ e) ih q = cc
      by_round (raises _ _ _ e) ih q = cc
      by_round (goes_on l' before e r) ih q =
          let (less, room') =
            rounds_left-decreases config (length frames) l l' before room
              (step-Moves frames l l' e) in
          ih l' room' (omega arith) (sym r ∙ q)

  -- What each round keeps holds at the end, where the loop's test has failed.
  pub run_induction :
      (Inv : Loop S → Type 0) (frames : List Frame)
      → ((l l' : Loop S) → l.t < length frames → next frames l ≡ ok l' → Inv l → Inv l')
      → (fuel : ℕ) (l r : Loop S) → run fuel frames l ≡ some (ok r)
      → Inv l
      → Inv r × (length frames ≤ r.t)
  run_induction Inv frames keep zero l r h i = cc (run-zero frames l)
  run_induction Inv frames keep (suc fuel) l r h i =
      by_round (room_of fuel frames l) (run_induction Inv frames keep fuel)
    where
      by_round :
          Round fuel frames l
          → ((k m : Loop S)
              → run fuel frames k ≡ some (ok m)
              → Inv k
              → Inv m × (length frames ≤ m.t))
          → Inv r × (length frames ≤ r.t)
      by_round (stops past e) ih =
          subst (λ m. Inv m × (length frames ≤ m.t)) (same (sym e ∙ h)) (i, past)
        where
          same : ◌≡◌ {A = Option (Result TdtError (Loop S))} (some (ok l)) (some (ok r)) → l ≡ r
          same q = cc
      by_round (raises x _ _ e) ih = cc
      by_round (goes_on l' before e q) ih = ih l' r (sym q ∙ h) (keep l l' before e i)

  -- A run whose rounds all return does so itself.
  pub run_returns :
      (frames : List Frame)
      → ((l : Loop S) → l.t < length frames → (l' : Loop S) × (next frames l ≡ ok l'))
      → (fuel : ℕ) (l : Loop S) → run fuel frames l ≢ none
      → (r : Loop S) × (run fuel frames l ≡ some (ok r))
  run_returns frames all_return zero l h = absurd (h (run-zero frames l))
  run_returns frames all_return (suc fuel) l h =
      by_round (room_of fuel frames l) (run_returns frames all_return fuel)
    where
      by_round :
          Round fuel frames l
          → ((k : Loop S)
              → run fuel frames k ≢ none
              → (r : Loop S) × (run fuel frames k ≡ some (ok r)))
          → (r : Loop S) × (run (suc fuel) frames l ≡ some (ok r))
      by_round (stops past e) ih = (l, e)
      by_round (raises x before e _) ih = let (l', q) = all_return l before in cc
      by_round (goes_on l' before e q) ih = let (r, p) = ih l' (λ n. h (q ∙ n)) in (r, q ∙ p)

  finish-ne-none :
      (o : Option (Result TdtError (Loop S)))
      → o ≢ none
      → finish argmax predictor_step joint_step config o ≢ none
  finish-ne-none none h q = h refl
  finish-ne-none (some (err e)) h q = cc
  finish-ne-none (some (ok l)) h q = cc

  decode_frames-ne-none :
      (frames : Result TdtError (List Frame)) (initial_state : S)
      → 0 < config.max_symbols_per_step
      → decode_frames argmax predictor_step joint_step config frames initial_state ≢ none
  decode_frames-ne-none (err e) s h = λ q. cc
  decode_frames-ne-none (ok frames) s h = finish-ne-none _ (
      decode_loop-ne-none _ frames (start config s) h
        (rounds_at_start (length frames) config.max_symbols_per_step))

  -- With room for a symbol at each frame, the loop ends within its fuel, returning or raising,
  -- whatever argmax and the callbacks do.
  pub greedy_tdt_decode-ne-none :
      (encoder_frames : EncoderFrames Frame) (initial_state : S)
      → 0 < config.max_symbols_per_step
      → greedy_tdt_decode argmax predictor_step joint_step config encoder_frames initial_state
        ≢ none
  unfolding greedy_tdt_decode
  greedy_tdt_decode-ne-none encoder_frames initial_state =
      decode_frames-ne-none (frames_of encoder_frames) initial_state
