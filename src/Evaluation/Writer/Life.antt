-- ===== src/Evaluation/Writer/Life.antt =====
-- The life of a sample writer: what holds of its file in every state that it reaches.
use jpapt_v2_2_inspection.Base.{ℕ, suc, ◌≤◌, ◌≡◌, String, Bool, true, List, [], ◌∷◌, All}
use jpapt_v2_2_inspection.Evaluation.Models.{SampleResult}
use jpapt_v2_2_inspection.Evaluation.Writer.{
  Piece, line, cut, newline, Taken, SampleResultWriter, Outcome, open_file, close_file, write_many,
}

-- The ends of lines in a file.
unfoldable pub line_ends : List Piece → ℕ
line_ends [] = 0
line_ends (newline ∷ rest) = suc (line_ends rest)
line_ends (line text ∷ rest) = line_ends rest
line_ends (cut text ∷ rest) = line_ends rest

module _ (validates : SampleResult → Bool) (line_of : SampleResult → String) where
  -- A step of a writer's life, whatever the file does and whatever the outcome.
  pub data Step : SampleResultWriter → SampleResultWriter → Type 0 where
    opens : (w : SampleResultWriter) (raises : Bool) → Step w (open_file raises w).0
    closes : (w : SampleResultWriter) (raises : Bool) → Step w (close_file raises w).0
    writes :
        (w : SampleResultWriter) (values : List (SampleResult × Taken))
        → Step w (write_many validates line_of w values).0

  pub data Reachable (start : SampleResultWriter) : SampleResultWriter → Type 0 where
    here : Reachable start start
    later : {w next : SampleResultWriter} → Reachable start w → Step w next → Reachable start next

  -- A whole line is that of a result that the schema accepts.
  abbrev pub ValidPiece : Piece → Type 0
  ValidPiece (line text) =
      (value : SampleResult) × (validates value ≡ true) × (text ≡ line_of value)
  ValidPiece (cut text) = Unit
  ValidPiece newline = Unit

  -- The writer validates, the whole lines in its file are those of valid results, and it has counted
  -- at least as many results as the file has ends of lines.
  pub record IsSound (w : SampleResultWriter) : Type 0 where
    pub validating : w.validate ≡ true
    pub valid : All ValidPiece w.file
    pub enough : line_ends w.file ≤ w.count

  -- The writer that a method leaves is sound.
  abbrev Sound : Outcome → Type 0
  Sound r = IsSound r.0
