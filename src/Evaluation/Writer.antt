-- ===== src/Evaluation/Writer.antt =====
-- evaluation/writer.py: `SampleResultWriter`, with what its file has taken as part of its state. The
-- schema check and `json.dumps` of a result are parameters, and so is what the file does: each
-- operation on it may raise OSError. A method returns the writer it leaves behind, also when it raises.
pub mod Lines
pub mod Life
use jpapt_v2_2_inspection.Base.{
  ℕ, suc, ◌-◌, String, Bool, true, false, not, ◌&&◌, List, [], ◌∷◌, ◌++◌, Result, ok, err,
  if◌then◌else◌,
}
use jpapt_v2_2_inspection.Evaluation.Models.{SampleResult}

pub data WriterError : Type 0 where
  not_open schema_violation os_error : WriterError

-- What a file has taken: a line, what a failing write has taken of one, or a line's end.
pub data Piece : Type 0 where
  line cut : String → Piece
  newline : Piece

-- What the file does with the two writes of a result: it takes both, raises at the newline, or
-- raises at the line, of which it has taken the text given.
pub data Taken : Type 0 where
  both only_line : Taken
  part : String → Taken

pub record SampleResultWriter : Type 0 where
  pub validate : Bool
  pub file : List Piece
  pub is_open : Bool
  pub count : ℕ

-- What a method leaves: the writer, and its value or the exception.
abbrev pub Outcome : Type 0
Outcome = SampleResultWriter × Result WriterError (Unit {0})

-- `__init__`, over a file that may hold something already.
abbrev pub new_writer : Bool → List Piece → SampleResultWriter
new_writer validate file = record { validate = validate; file = file; is_open = false; count = 0 }

-- Opening for writing empties the file, unless it raises.
unfoldable pub open_file : Bool → SampleResultWriter → Outcome
open_file raises self =
    if self.is_open
    then (self, ok tt)
    else if raises
    then (self, err os_error)
    else (record self { file = []; is_open = true }, ok tt)

-- A flush, fsync or close that raises leaves the writer open.
unfoldable pub close_file : Bool → SampleResultWriter → Outcome
close_file raises self =
    if not self.is_open
    then (self, ok tt)
    else if raises
    then (self, err os_error)
    else (record self { is_open = false }, ok tt)

module _ (validates : SampleResult → Bool) (line_of : SampleResult → String) where
  -- The two writes to the file, and the count.
  unfoldable pub put : SampleResultWriter → SampleResult → Taken → Outcome
  put self value both = (
    record self { file = self.file ++ line (line_of value) ∷ newline ∷ []; count = suc self.count },
    ok tt,
  )
  put self value only_line =
      (record self { file = self.file ++ line (line_of value) ∷ [] }, err os_error)
  put self value (part text) = (record self { file = self.file ++ cut text ∷ [] }, err os_error)

  unfoldable pub write : SampleResultWriter → SampleResult → Taken → Outcome
  write self value taken =
      if not self.is_open
      then (self, err not_open)
      else if self.validate && not (validates value)
      then (self, err schema_violation)
      else put self value taken

  -- The loop of `write_many`, over each result with what the file does: an exception ends it and
  -- leaves what is written.
  unfoldable pub write_loop : SampleResultWriter → List (SampleResult × Taken) → Outcome
  unfolding write
  write_loop self [] = (self, ok tt)
  write_loop self ((value, taken) ∷ values) =
      let (next, outcome) = write self value taken in
      elim outcome [ ok u ↦ write_loop next values | err e ↦ (next, err e) ]

  abbrev pub counted : ℕ → Result WriterError (Unit {0}) → ℕ → Result WriterError ℕ
  counted initial (ok u) count = ok (count - initial)
  counted initial (err e) count = err e

  unfoldable pub write_many :
      SampleResultWriter → List (SampleResult × Taken) → SampleResultWriter × Result WriterError ℕ
  unfolding write_loop
  write_many self values =
      let (next, outcome) = write_loop self values in (next, counted self.count outcome next.count)
