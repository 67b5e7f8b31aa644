-- ===== src/Evaluation/Writer/Lines.antt =====
-- The lines that a sample writer leaves in its file.
use jpapt_v2_2_inspection.Base.{
  ℕ, suc, ◌+◌, ◌≤◌, ◌<◌, ◌≡◌, ◌⊎◌, refl, sym, ◌∙◌, String, Bool, true, false, not, ◌&&◌, List, [],
  ◌∷◌, ◌++◌, append-nil, append_assoc, ok, err, arith, length, take, if◌then◌else◌, inl, inr,
}
use jpapt_v2_2_inspection.Evaluation.Models.{SampleResult}
use jpapt_v2_2_inspection.Evaluation.Writer.{
  WriterError, not_open, schema_violation, os_error, Piece, line, cut, newline, Taken, both,
  only_line, part, SampleResultWriter, Outcome, put, write, write_loop,
}

module _ (validates : SampleResult → Bool) (line_of : SampleResult → String) where
  -- The lines of results, each with its end.
  pub pieces : List (SampleResult × Taken) → List Piece
  pieces [] = []
  pieces ((value, _) ∷ values) = line (line_of value) ∷ newline ∷ pieces values

  -- The first `n` results are written to the file in order, and then the rest.
  pub record Wrote (self next : SampleResultWriter) (values : List (SampleResult × Taken)) (n : ℕ)
      (rest : List Piece) : Type 0 where
    pub most : n ≤ length values
    pub taken : next.file ≡ self.file ++ (pieces (take n values) ++ rest)
    pub count : next.count ≡ self.count + n
    pub still : next.is_open ≡ self.is_open

  -- What the failing result leaves: nothing, or, where the file raised, one piece without an end.
  pub Left : WriterError → List Piece → Type 0
  Left os_error rest = (text : String) × ((rest ≡ line text ∷ []) ⊎ (rest ≡ cut text ∷ []))
  Left not_open rest = rest ≡ []
  Left schema_violation rest = rest ≡ []

  -- All results are written, or those before one that could not be.
  pub WroteUntil : SampleResultWriter → List (SampleResult × Taken) → Outcome → Type 0
  WroteUntil self values (next, ok u) = Wrote self next values (length values) []
  WroteUntil self values (next, err e) =
      (n : ℕ) × (n < length values)
      × (rest : List Piece) × Left e rest
      × Wrote self next values n rest

  abbrev pub written : SampleResultWriter → SampleResult → SampleResultWriter
  written self value = record self {
    file = self.file ++ line (line_of value) ∷ newline ∷ [];
    count = suc self.count;
  }

  -- The writer with another piece in its file.
  abbrev with_pieces : SampleResultWriter → List Piece → SampleResultWriter
  with_pieces self rest = record self { file = self.file ++ rest }

  stopped :
      (self : SampleResultWriter) (values : List (SampleResult × Taken)) (rest : List Piece)
      → Wrote self (with_pieces self rest) values 0 rest
  unfolding pieces
  stopped self values rest = record {
    most = omega arith;
    taken = refl;
    count = omega arith;
    still = refl;
  }

  none_written :
      (self : SampleResultWriter) (values : List (SampleResult × Taken))
      → Wrote self self values 0 []
  unfolding pieces
  none_written self values = record {
    most = omega arith;
    taken = sym (append-nil self.file);
    count = omega arith;
    still = refl;
  }

  one_more :
      (self next : SampleResultWriter) (value : SampleResult) (t : Taken)
      (values : List (SampleResult × Taken)) (n : ℕ) (rest : List Piece)
      → Wrote (written self value) next values n rest
      → Wrote self next ((value, t) ∷ values) (suc n) rest
  unfolding pieces
  one_more self next value t values n rest w = record {
    most = let h = w.most in omega arith;
    taken =
        w.taken
        ∙ append_assoc self.file (line (line_of value) ∷ newline ∷ [])
            (pieces (take n values) ++ rest);
    count = let h = w.count in omega arith;
    still = w.still;
  }

  WroteUntil-cons :
      (self : SampleResultWriter) (value : SampleResult) (t : Taken)
      (values : List (SampleResult × Taken)) (r : Outcome)
      → WroteUntil (written self value) values r
      → WroteUntil self ((value, t) ∷ values) r
  unfolding WroteUntil
  WroteUntil-cons self value t values (next, ok u) w =
      one_more self next value t values (length values) [] w
  WroteUntil-cons self value t values (next, err e) (n, below, rest, left, w) =
      (suc n, omega arith, rest, left, one_more self next value t values n rest w)

  -- The three ways in which a write goes: it is refused, or the file takes or does not take it.
  pub data Written (self : SampleResultWriter) (value : SampleResult) : Outcome → Type 0 where
    closed : Written self value (self, err not_open)
    invalid : Written self value (self, err schema_violation)
    whole :
        self.is_open ≡ true
        → (self.validate && not (validates value)) ≡ false
        → Written self value (written self value, ok tt)
    unended :
        (self.validate && not (validates value)) ≡ false
        → Written self value (with_pieces self (line (line_of value) ∷ []), err os_error)
    torn : (text : String) → Written self value (with_pieces self (cut text ∷ []), err os_error)

  pub write-Written :
      (self : SampleResultWriter) (value : SampleResult) (t : Taken)
      → Written self value (write validates line_of self value t)
  unfolding write put
  write-Written self value t = by_tests self.is_open _ refl refl
    where
      by_taken :
          self.is_open ≡ true
          → (self.validate && not (validates value)) ≡ false
          → (t : Taken) → Written self value (put validates line_of self value t)
      by_taken e f both = whole e f
      by_taken e f only_line = unended f
      by_taken e f (part text) = torn text

      by_tests :
          (a b : Bool)
          → self.is_open ≡ a
          → (self.validate && not (validates value)) ≡ b
          → Written self value (
              if not a
              then (self, err not_open)
              else if b
              then (self, err schema_violation)
              else put validates line_of self value t)
      by_tests false b e f = closed
      by_tests true true e f = invalid
      by_tests true false e f = by_taken e f t

  -- What the loop does after a write.
  abbrev pub after : List (SampleResult × Taken) → Outcome → Outcome
  after values r = elim r.1 [
    | ok u ↦ write_loop validates line_of r.0 values
    | err e ↦ (r.0, err e)
  ]

  WroteUntil-after :
      (self : SampleResultWriter) (value : SampleResult) (t : Taken)
      (values : List (SampleResult × Taken)) (r : Outcome)
      → Written self value r
      → WroteUntil
          (written self value)
          values
          (write_loop validates line_of (written self value) values)
      → WroteUntil self ((value, t) ∷ values) (after values r)
  unfolding WroteUntil Left
  WroteUntil-after self value t values r closed later =
      (0, omega arith, [], refl, none_written self ((value, t) ∷ values))
  WroteUntil-after self value t values r invalid later =
      (0, omega arith, [], refl, none_written self ((value, t) ∷ values))
  WroteUntil-after self value t values r (whole e f) later =
      WroteUntil-cons self value t values (write_loop validates line_of (written self value) values)
        later
  WroteUntil-after self value t values r (unended f) later =
      (0, omega arith, _, (line_of value, inl refl), stopped self ((value, t) ∷ values) _)
  WroteUntil-after self value t values r (torn text) later =
      (0, omega arith, _, (text, inr refl), stopped self ((value, t) ∷ values) _)

  -- Whatever the writer's state and whatever the file does, the results before the one at which the
  -- loop raises are written in order, one ended line each, and counted, and nothing else is, but for
  -- the one piece without an end that a file leaves which raises; if the loop does not raise, all are.
  pub write_loop-WroteUntil :
      (self : SampleResultWriter) (values : List (SampleResult × Taken))
      → WroteUntil self values (write_loop validates line_of self values)
  unfolding write_loop WroteUntil
  write_loop-WroteUntil self [] = none_written self []
  write_loop-WroteUntil self ((value, t) ∷ values) =
      WroteUntil-after self value t values (write validates line_of self value t)
        (write-Written self value t) (write_loop-WroteUntil (written self value) values)
