-- ===== src/Evaluation/Metrics.antt =====
-- evaluation/metrics.py: the edit distance, error rates and the corpus accumulator.
-- Texts are lists of code points. A rate is the exact fraction that the source divides out.
pub mod Words
pub mod Alignment
pub mod Distance
pub mod Metric
pub mod Corpus
use jpapt_v2_2_inspection.Base.{
  ℕ, zero, suc, ◌+◌, min, Bool, Option, none, some, List, [], ◌∷◌, length, ◌==◌, if◌then◌else◌,
}
use jpapt_v2_2_inspection.Evaluation.Metrics.Words.{split, strip, join, same_text}

-- `list(range(start, start + n))`
pub range : ℕ → ℕ → List ℕ
range start zero = []
range start (suc n) = start ∷ range (suc start) n

-- `row[-1]`
pub last : List ℕ → ℕ
last [] = 0
last (n ∷ []) = n
last (_ ∷ m ∷ row) = last (m ∷ row)

module _ {A : Type 0} (same : A → A → Bool) where
  -- `int(ref_item != hyp_item)`
  abbrev pub cost : A → A → ℕ
  cost x y = if same x y then 0 else 1

  -- The loop over the hypothesis: the cell to the left, and the previous row from `j - 1` on.
  pub fill_row : A → ℕ → List ℕ → List A → List ℕ
  fill_row x left (diagonal ∷ above ∷ previous) (y ∷ ys) =
      let cell = min (min (diagonal + cost x y) (left + 1)) (above + 1) in
      cell ∷ fill_row x cell (above ∷ previous) ys
  fill_row x left _ _ = []

  -- The loop over the reference, whose items are counted from `i`.
  pub edit_rows : ℕ → List ℕ → List A → List A → List ℕ
  edit_rows i previous [] hypothesis = previous
  edit_rows i previous (x ∷ xs) hypothesis =
      edit_rows (i + 1) (i ∷ fill_row x i previous hypothesis) xs hypothesis

  unfoldable pub edit_distance : List A → List A → ℕ
  unfolding fill_row edit_rows range last
  edit_distance [] hypothesis = length hypothesis
  edit_distance (x ∷ xs) [] = length (x ∷ xs)
  edit_distance (x ∷ xs) (y ∷ ys) =
      last (edit_rows 1 (range 0 (length (y ∷ ys) + 1)) (x ∷ xs) (y ∷ ys))

pub record Rate : Type 0 where
  pub numerator : ℕ
  pub denominator : ℕ

-- 0.0 and 1.0
abbrev pub no_error : Rate
no_error = record { numerator = 0; denominator = 1 }

abbrev pub all_wrong : Rate
all_wrong = record { numerator = 1; denominator = 1 }

-- The tests for an empty reference, before the division.
rate : {A : Type 0} → (A → A → Bool) → List A → List A → Rate
rate same [] [] = no_error
rate same [] (_ ∷ _) = all_wrong
rate same (x ∷ xs) hypothesis = record {
  numerator = edit_distance same (x ∷ xs) hypothesis;
  denominator = length (x ∷ xs);
}

pub record CorpusErrorAccumulator : Type 0 where
  pub character_edits : ℕ
  pub reference_characters : ℕ
  pub word_edits : ℕ
  pub reference_words : ℕ

abbrev pub empty : CorpusErrorAccumulator
empty = record {
  character_edits = 0;
  reference_characters = 0;
  word_edits = 0;
  reference_words = 0;
}

-- `unicodedata.normalize("NFKC", …)` is a parameter.
module _ (nfkc : List ℕ → List ℕ) where
  unfoldable pub normalize_text : List ℕ → List ℕ
  normalize_text text = join (split (strip (nfkc text)))

  unfoldable pub character_error_rate : List ℕ → List ℕ → Rate
  unfolding rate
  character_error_rate reference hypothesis =
      rate (λ a b. a == b) (normalize_text reference) (normalize_text hypothesis)

  unfoldable pub word_error_rate : List ℕ → List ℕ → Rate
  unfolding rate
  word_error_rate reference hypothesis =
      rate same_text (split (normalize_text reference)) (split (normalize_text hypothesis))

  unfoldable pub add : CorpusErrorAccumulator → List ℕ → List ℕ → CorpusErrorAccumulator
  add self reference hypothesis =
      let ref_text = normalize_text reference in
      let hyp_text = normalize_text hypothesis in
      record {
        character_edits =
            self.character_edits + edit_distance (λ (a b : ℕ). a == b) ref_text hyp_text;
        reference_characters = self.reference_characters + length ref_text;
        word_edits = self.word_edits + edit_distance same_text (split ref_text) (split hyp_text);
        reference_words = self.reference_words + length (split ref_text);
      }

unfoldable pub cer : CorpusErrorAccumulator → Option Rate
cer self =
    if self.reference_characters == 0
    then none
    else some (record { numerator = self.character_edits; denominator = self.reference_characters })

unfoldable pub wer : CorpusErrorAccumulator → Option Rate
wer self =
    if self.reference_words == 0
    then none
    else some (record { numerator = self.word_edits; denominator = self.reference_words })
