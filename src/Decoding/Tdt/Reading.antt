-- ===== src/Decoding/Tdt/Reading.antt =====
-- What holds of the symbols emitted so far at each turn of the decoding loop.
use jpapt_v2_2_inspection.Base.{
  ℕ, ◌+◌, ◌≤◌, ◌<◌, max, ◌≡◌, refl, ◌≢◌, Bool, true, false, some, List, [], ◌∷◌, ◌++◌, arith,
  length, length-append, get_elem?, All, All-append, count, count-append, ltb, leb, ltb→lt,
  if◌then◌else◌,
}
use native.Mathlib.Nat.{le_refl}
use jpapt_v2_2_inspection.Base.Int.{ℤ, eq_ℤ, eq_ℤ_iff}
use jpapt_v2_2_inspection.Decoding.Tdt.{TdtDecoderConfig, Loop, settle, advance}
use jpapt_v2_2_inspection.Decoding.Tdt.Spacing.{
  Spaced, Spaced-later, Spaced-append, Spaced-All-le, count_above,
}

-- A duration that the configuration lists.
abbrev pub Listed : TdtDecoderConfig → ℕ → Type 0
Listed config d = (i : ℕ) × (get_elem? config.durations i ≡ some d)

-- The invariant of the loop.
pub record IsReading {S : Type 0} (config : TdtDecoderConfig) (frames : ℕ) (l : Loop S)
    : Type 0 where
  pub as_many : length l.emitted ≡ length l.positions
  pub in_range : All (λ p. p < frames) l.positions
  pub spaced : Spaced l.positions l.emitted_durations l.t
  pub crowd : (p : ℕ) → count p l.positions ≤ config.max_symbols_per_step
  pub room : l.symbols_at_t < config.max_symbols_per_step
  pub here : count l.t l.positions ≡ l.symbols_at_t
  pub no_blank : All (λ x. x ≢ config.blank_id) l.emitted
  pub listed : All (Listed config) l.emitted_durations

module _ {S : Type 0} (config : TdtDecoderConfig) (frames : ℕ) (l : Loop S)
    (i : IsReading config frames l) where
  -- Moving on with nothing emitted.
  skip-IsReading :
      (t' : ℕ) → l.t < t' → IsReading config frames (record l { t = t'; symbols_at_t = 0 })
  skip-IsReading t' on = record {
    as_many = i.as_many;
    in_range = i.in_range;
    spaced = Spaced-later l.positions l.emitted_durations l.t t' i.spaced (omega arith);
    crowd = i.crowd;
    room = omega (arith, i.room);
    here = count_above t' l.t l.positions (Spaced-All-le _ _ _ i.spaced) on;
    no_blank = i.no_blank;
    listed = i.listed;
  }

  -- A symbol emitted at the present frame, where the loop then stands at `t'`.
  emit-IsReading :
      (token_id : ℤ) (d : ℕ) (s : S) (t' n : ℕ)
      → token_id ≢ config.blank_id
      → Listed config d
      → l.t < frames
      → l.t + d ≤ t'
      → n < config.max_symbols_per_step
      → count t' (l.positions ++ l.t ∷ []) ≡ n
      → IsReading config frames (record l {
        t = t';
        symbols_at_t = n;
        emitted = l.emitted ++ token_id ∷ [];
        positions = l.positions ++ l.t ∷ [];
        emitted_durations = l.emitted_durations ++ d ∷ [];
        last_token = token_id;
        state = s;
      })
  emit-IsReading token_id d s t' n not_blank from before after room here = record {
    as_many = omega (
      arith,
      i.as_many,
      length-append {0} l.emitted (token_id ∷ []),
      length-append {0} l.positions (l.t ∷ []),
    );
    in_range = All-append (λ p. p < frames) l.positions (l.t ∷ []) i.in_range (before, tt);
    spaced = Spaced-append l.positions l.emitted_durations l.t d t' i.spaced after;
    crowd = λ p. crowd' p;
    room = room;
    here = here;
    no_blank =
        All-append (λ x. x ≢ config.blank_id) l.emitted (token_id ∷ []) i.no_blank (not_blank, tt);
    listed = All-append (Listed config) l.emitted_durations (d ∷ []) i.listed (from, tt);
  }
    where
      crowd' : (p : ℕ) → count p (l.positions ++ l.t ∷ []) ≤ config.max_symbols_per_step
      crowd' p = ground (arith, count-append p l.positions (l.t ∷ []), i.crowd p, i.room, i.here)

count-append_self : (t : ℕ) (ps : List ℕ) → count t (ps ++ t ∷ []) ≡ count t ps + 1
count-append_self t ps = ground (arith, count-append t ps (t ∷ []))

module _ {S : Type 0} (config : TdtDecoderConfig) (frames : ℕ) where
  pub advance-IsReading :
      (l : Loop S) (token_id : ℤ) (d : ℕ) (s : S)
      → Listed config d
      → l.t < frames
      → IsReading config frames l
      → IsReading config frames (advance config l token_id d s)
  unfolding advance
  advance-IsReading l token_id d s from before i = by_token (eq_ℤ token_id config.blank_id) refl
    where
      ends : All (λ p. p ≤ l.t) (l.positions ++ l.t ∷ [])
      ends =
          All-append (λ p. p ≤ l.t) l.positions (l.t ∷ []) (Spaced-All-le _ _ _ i.spaced)
            (le_refl l.t, tt)

      emitted : Loop S
      emitted = record l {
        emitted = l.emitted ++ token_id ∷ [];
        positions = l.positions ++ l.t ∷ [];
        emitted_durations = l.emitted_durations ++ d ∷ [];
        last_token = token_id;
        state = s;
        symbols_at_t = l.symbols_at_t + 1;
      }

      by_bound :
          token_id ≢ config.blank_id
          → (c : Bool) → leb config.max_symbols_per_step (l.symbols_at_t + 1) ≡ c
          → d ≡ 0
          → IsReading config frames
              (if c then record emitted { t = l.t + 1; symbols_at_t = 0 } else emitted)
      by_bound n true full z =
          emit-IsReading config frames l i token_id d s (l.t + 1) 0 n from before (omega arith)
            (omega (arith, i.room)) (count_above (l.t + 1) l.t _ ends (omega arith))
      by_bound n false full z =
          emit-IsReading config frames l i token_id d s l.t (l.symbols_at_t + 1) n from before
            (omega arith) (ground arith) (omega (arith, count-append_self l.t l.positions, i.here))

      by_duration :
          token_id ≢ config.blank_id
          → (c : Bool) → ltb 0 d ≡ c
          → IsReading config frames (
              if c
              then record emitted { t = l.t + d; symbols_at_t = 0 }
              else if leb config.max_symbols_per_step (l.symbols_at_t + 1)
              then record emitted { t = l.t + 1; symbols_at_t = 0 }
              else emitted)
      by_duration n true pos_d =
          emit-IsReading config frames l i token_id d s (l.t + d) 0 n from before (omega arith)
            (omega (arith, i.room))
            (count_above (l.t + d) l.t _ ends (omega (arith, ltb→lt 0 d pos_d)))
      by_duration n false zero_d = by_bound n _ refl (ground arith)

      by_token :
          (c : Bool)
          → eq_ℤ token_id config.blank_id ≡ c
          → IsReading config frames (
              if c
              then record l { t = l.t + max 1 d; symbols_at_t = 0 }
              else settle config d emitted)
      by_token true blank = skip-IsReading config frames l i (l.t + max 1 d) (omega arith)
      by_token false other = by_duration (λ e. cc (other, (eq_ℤ_iff _ _).1 e)) _ refl
