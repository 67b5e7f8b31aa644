-- ===== src/Evaluation/Metrics/Corpus.antt =====
-- Sums over a corpus, and what a perfect score means.
use jpapt_v2_2_inspection.Base.{
  ℕ, ◌+◌, ◌≡◌, refl, ◌∙◌, ◌↔◌, Bool, none, some, List, [], ◌∷◌, arith, length, All, ◌==◌, ==_iff,
}
use jpapt_v2_2_inspection.Evaluation.Metrics.{
  edit_distance, normalize_text, CorpusErrorAccumulator, empty, add, cer, Rate,
}
use jpapt_v2_2_inspection.Evaluation.Metrics.Words.{split, strip, join, IsWord}
use jpapt_v2_2_inspection.Evaluation.Metrics.Words.Laws.{
  split-join-split, split-IsWord, solid, solid-strip, solid-join-split,
}
use jpapt_v2_2_inspection.Evaluation.Metrics.Metric.{edit_distance-IsMetric}

abbrev same_char : ℕ → ℕ → Bool
same_char a b = a == b

module _ (nfkc : List ℕ → List ℕ) where
  -- A normalized text is words joined by single spaces, each with a character and without any white
  -- space. It has the characters of the NFKC form that are no white space, in their order, and it
  -- splits into the words of that form, stripped.
  pub normalize_text-IsWord :
      (text : List ℕ)
      → (words : List (List ℕ)) × All IsWord words
        × (normalize_text nfkc text ≡ join words)
        × (solid (normalize_text nfkc text) ≡ solid (nfkc text))
        × (split (normalize_text nfkc text) ≡ split (strip (nfkc text)))
  unfolding normalize_text
  normalize_text-IsWord text = (
    split (strip (nfkc text)),
    split-IsWord (strip (nfkc text)),
    refl,
    solid-join-split (strip (nfkc text)) ∙ solid-strip (nfkc text),
    split-join-split (strip (nfkc text)),
  )

  -- The accumulator after a corpus of pairs, reference first.
  pub accumulate : CorpusErrorAccumulator → List (List ℕ × List ℕ) → CorpusErrorAccumulator
  accumulate acc [] = acc
  accumulate acc ((reference, hypothesis) ∷ pairs) =
      accumulate (add nfkc acc reference hypothesis) pairs

  -- A pair whose texts agree once normalized.
  abbrev pub Agrees : List ℕ × List ℕ → Type 0
  Agrees (reference, hypothesis) = normalize_text nfkc reference ≡ normalize_text nfkc hypothesis

  abbrev pub reference_length : List (List ℕ × List ℕ) → ℕ
  reference_length [] = 0
  reference_length ((reference, _) ∷ pairs) =
      length (normalize_text nfkc reference) + reference_length pairs

  character_distance : List ℕ × List ℕ → ℕ
  character_distance (reference, hypothesis) =
      edit_distance same_char (normalize_text nfkc reference) (normalize_text nfkc hypothesis)

  total : List (List ℕ × List ℕ) → ℕ
  total [] = 0
  total (pair ∷ pairs) = character_distance pair + total pairs

  accumulate-totals :
      (acc : CorpusErrorAccumulator) (pairs : List (List ℕ × List ℕ))
      → ((accumulate acc pairs).character_edits ≡ acc.character_edits + total pairs)
        × ((accumulate acc pairs).reference_characters
            ≡ acc.reference_characters + reference_length pairs)
  unfolding accumulate total add character_distance
  accumulate-totals acc [] = omega arith
  accumulate-totals acc ((reference, hypothesis) ∷ pairs) =
      omega (arith, accumulate-totals (add nfkc acc reference hypothesis) pairs)

  total-zero : (pairs : List (List ℕ × List ℕ)) → (total pairs ≡ 0) ↔ All Agrees pairs
  unfolding total character_distance
  total-zero [] = (λ e. tt, λ h. refl)
  total-zero ((reference, hypothesis) ∷ pairs) = (
    λ e. (zero.0 (omega arith), (total-zero pairs).0 (omega arith)),
    λ h. omega (arith, zero.1 h.0, (total-zero pairs).1 h.1),
  )
    where
      zero :
          (edit_distance same_char (normalize_text nfkc reference) (normalize_text nfkc hypothesis)
            ≡ 0)
          ↔ (normalize_text nfkc reference ≡ normalize_text nfkc hypothesis)
      zero = (edit_distance-IsMetric same_char ==_iff).zero_iff _ _

  -- The corpus character error rate is absent exactly when the references have no character. If it
  -- is there, its denominator counts their characters, and it is 0 exactly when each pair agrees
  -- once normalized.
  pub cer-accumulate :
      (pairs : List (List ℕ × List ℕ))
      → ((cer (accumulate empty pairs) ≡ none) ↔ (reference_length pairs ≡ 0))
        × ((rate : Rate)
            → cer (accumulate empty pairs) ≡ some rate
            → (rate.denominator ≡ reference_length pairs)
              × ((rate.numerator ≡ 0) ↔ All Agrees pairs))
  unfolding cer
  cer-accumulate pairs =
      let sums = accumulate-totals empty pairs in
      (
        (λ e. ground (arith, sums), λ z. ground (arith, sums)),
        λ rate e.
            let edits : rate.numerator ≡ total pairs = ground (arith, sums) in
            (
              ground (arith, sums),
              (λ z. (total-zero pairs).0 (omega arith), λ h. omega (arith, (total-zero pairs).1 h)),
            ),
      )
