-- ===== src/Evaluation/Metrics/Words.antt =====
-- Python's `strip`, `split` and `" ".join` on code points, as `normalize_text` uses them.
pub mod Laws
use jpapt_v2_2_inspection.Base.{
  ℕ, suc, ◌≡◌, refl, ◌∙◌, ap, ◌≢◌, ◌↔◌, Bool, true, false, ◌&&◌, ◌||◌, List, [], ◌∷◌, ◌++◌, reverse,
  append-nil, append_assoc, arith, All, leb, ◌==◌, ==_iff, if◌then◌else◌,
}

-- `str.isspace` of one character: the code points that Python splits at.
abbrev pub is_space : ℕ → Bool
is_space c =
    (leb 9 c && leb c 13)
    || (leb 28 c && leb c 32)
    || c == 133
    || c == 160
    || c == 5760
    || (leb 8192 c && leb c 8202)
    || c == 8232
    || c == 8233
    || c == 8239
    || c == 8287
    || c == 12288

abbrev pub same_text : List ℕ → List ℕ → Bool
same_text [] [] = true
same_text (a ∷ as') (b ∷ bs) = a == b && same_text as' bs
same_text _ _ = false

pub same_text_iff : (s t : List ℕ) → (same_text s t ≡ true) ↔ (s ≡ t)
same_text_iff [] [] = (λ h. refl, λ h. refl)
same_text_iff [] (b ∷ t) = ground arith
same_text_iff (a ∷ s) [] = ground arith
same_text_iff (a ∷ s) (b ∷ t) = ground (arith, same_text_iff s t)

pub lstrip : List ℕ → List ℕ
lstrip [] = []
lstrip (c ∷ cs) = let rest = lstrip cs in if is_space c then rest else c ∷ cs

unfoldable pub strip : List ℕ → List ℕ
unfolding lstrip
strip text = reverse (lstrip (reverse (lstrip text)))

-- A finished word, unless it is empty.
abbrev pub flush : List ℕ → List (List ℕ) → List (List ℕ)
flush [] words = words
flush (c ∷ word) words = (c ∷ word) ∷ words

-- `split` with the word that is being read.
pub split_loop : List ℕ → List ℕ → List (List ℕ)
split_loop word [] = flush word []
split_loop word (c ∷ cs) = elim (is_space c) [
  | true ↦ flush word (split_loop [] cs)
  | false ↦ split_loop (word ++ c ∷ []) cs
]

unfoldable pub split : List ℕ → List (List ℕ)
unfolding split_loop
split = split_loop []

-- `" ".join(words)`
unfoldable pub join : List (List ℕ) → List ℕ
join [] = []
join (word ∷ []) = word
join (word ∷ next ∷ words) = word ++ 32 ∷ join (next ∷ words)

-- A word has a character, and no space in it.
abbrev pub IsWord : List ℕ → Type 0
IsWord word = (word ≢ []) × All (λ c. is_space c ≡ false) word
