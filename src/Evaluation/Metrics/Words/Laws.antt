-- ===== src/Evaluation/Metrics/Words/Laws.antt =====
-- Splitting and joining: the words of a normalized text are read back from it.
use jpapt_v2_2_inspection.Base.{
  ℕ, ◌≡◌, refl, sym, ◌∙◌, ap, ◌≢◌, Bool, true, false, List, [], ◌∷◌, ◌++◌, append-nil, append_assoc,
  All, All-append, not, keep, reverse, ◌⊎◌, inl, inr, Bool-cases,
}
use mathlib.Core.List.{reverse-cons, reverse-reverse}
use jpapt_v2_2_inspection.Evaluation.Metrics.Words.{
  is_space, flush, split_loop, split, join, IsWord, lstrip, strip,
}

-- No character is a space.
abbrev pub Solid : List ℕ → Type 0
Solid = All (λ c. is_space c ≡ false)

flush_word : (word : List ℕ) (words : List (List ℕ)) → word ≢ [] → flush word words ≡ word ∷ words
flush_word [] words n = absurd (n refl)
flush_word (c ∷ word) words n = refl

split_loop-space :
    (word : List ℕ) (c : ℕ) (cs : List ℕ)
    → is_space c ≡ true
    → split_loop word (c ∷ cs) ≡ flush word (split_loop [] cs)
unfolding split_loop
split_loop-space word c cs e = rw (e, split_loop)

split_loop-solid :
    (word : List ℕ) (c : ℕ) (cs : List ℕ)
    → is_space c ≡ false
    → split_loop word (c ∷ cs) ≡ split_loop (word ++ c ∷ []) cs
unfolding split_loop
split_loop-solid word c cs e = rw (e, split_loop)

split_loop-append :
    (word read rest : List ℕ)
    → Solid read
    → split_loop word (read ++ rest) ≡ split_loop (word ++ read) rest
split_loop-append word [] rest h = rw append-nil
split_loop-append word (c ∷ read) rest h =
    split_loop-solid word c (read ++ rest) h.0
    ∙ split_loop-append (word ++ c ∷ []) read rest h.1
    ∙ ap (λ w. split_loop w rest) (append_assoc word (c ∷ []) read)

split_loop-nil : (word : List ℕ) → split_loop word [] ≡ flush word []
unfolding split_loop
split_loop-nil word = refl

split_loop-join : (words : List (List ℕ)) → All IsWord words → split_loop [] (join words) ≡ words
unfolding join
split_loop-join [] h = split_loop-nil []
split_loop-join (word ∷ []) h =
    ap (split_loop []) (sym (append-nil word))
    ∙ split_loop-append [] word [] h.0.1
    ∙ split_loop-nil word
    ∙ flush_word word [] h.0.0
split_loop-join (word ∷ next ∷ words) h =
    split_loop-append [] word (32 ∷ join (next ∷ words)) h.0.1
    ∙ split_loop-space word 32 (join (next ∷ words)) refl
    ∙ flush_word word _ h.0.0
    ∙ ap (λ (ws : List (List ℕ)). word ∷ ws) (split_loop-join (next ∷ words) h.1)

-- Words joined by single spaces split into themselves.
pub split-join : (words : List (List ℕ)) → All IsWord words → split (join words) ≡ words
unfolding split
split-join words h = split_loop-join words h

flush-IsWord :
    (word : List ℕ) (words : List (List ℕ))
    → Solid word
    → All IsWord words
    → All IsWord (flush word words)
flush-IsWord [] words s h = h
flush-IsWord (c ∷ word) words s h = (((λ e. cc), s), h)

split_loop-IsWord : (word text : List ℕ) → Solid word → All IsWord (split_loop word text)
split_loop-IsWord word [] s = rw split_loop-nil (flush-IsWord word [] s tt)
split_loop-IsWord word (c ∷ cs) s =
    by_space (is_space c) refl (split_loop-IsWord [] cs tt) (λ w t. split_loop-IsWord w cs t)
  where
    by_space :
        (b : Bool)
        → is_space c ≡ b
        → All IsWord (split_loop [] cs)
        → ((w : List ℕ) → Solid w → All IsWord (split_loop w cs))
        → All IsWord (split_loop word (c ∷ cs))
    by_space true e rest longer =
        rw (split_loop-space word c cs e) (flush-IsWord word (split_loop [] cs) s rest)
    by_space false e rest longer =
        rw (split_loop-solid word c cs e)
          (longer (word ++ c ∷ []) (All-append (λ d. is_space d ≡ false) word (c ∷ []) s (e, tt)))

-- `split` returns words only.
pub split-IsWord : (text : List ℕ) → All IsWord (split text)
unfolding split
split-IsWord text = split_loop-IsWord [] text tt

pub split-join-split : (text : List ℕ) → split (join (split text)) ≡ split text
split-join-split text = split-join (split text) (split-IsWord text)

-- The characters that are no spaces.
pub solid : List ℕ → List ℕ
solid = keep (λ c. not (is_space c))

solid-append : (s t : List ℕ) → solid (s ++ t) ≡ solid s ++ solid t
unfolding solid
solid-append [] t = refl
solid-append (c ∷ s) t = elim (Bool-cases (is_space c)) [
  | inl e ↦ rw e (solid-append s t)
  | inr e ↦ rw e (ap (λ (l : List ℕ). c ∷ l) (solid-append s t))
]

solid-Solid : (s : List ℕ) → Solid s → solid s ≡ s
unfolding solid
solid-Solid [] h = refl
solid-Solid (c ∷ s) h = rw h.0 (ap (λ (l : List ℕ). c ∷ l) (solid-Solid s h.1))

solid-lstrip : (s : List ℕ) → solid (lstrip s) ≡ solid s
unfolding solid lstrip
solid-lstrip [] = refl
solid-lstrip (c ∷ s) = elim (Bool-cases (is_space c)) [
  | inl e ↦ rw e (solid-lstrip s)
  | inr e ↦ rw e (rw e refl)
]

solid-reverse : (s : List ℕ) → solid (reverse s) ≡ reverse (solid s)
unfolding solid
solid-reverse [] = refl
solid-reverse (c ∷ s) =
    ap solid (reverse-cons c s)
    ∙ solid-append (reverse s) (c ∷ [])
    ∙ ap (λ (l : List ℕ). l ++ solid (c ∷ [])) (solid-reverse s)
    ∙ last (Bool-cases (is_space c))
  where
    last :
        (is_space c ≡ true) ⊎ (is_space c ≡ false)
        → (reverse (solid s) ++ solid (c ∷ [])) ≡ reverse (solid (c ∷ s))
    last (inl e) = rw e (append-nil (reverse (solid s)))
    last (inr e) = rw e (sym (reverse-cons c (solid s)))

pub solid-strip : (s : List ℕ) → solid (strip s) ≡ solid s
unfolding strip
solid-strip s =
    solid-reverse (lstrip (reverse (lstrip s)))
    ∙ ap reverse
        (solid-lstrip (reverse (lstrip s)) ∙ solid-reverse (lstrip s) ∙ ap reverse (solid-lstrip s))
    ∙ reverse-reverse (solid s)

solid-flush :
    (word : List ℕ) (words : List (List ℕ))
    → solid (join (flush word words)) ≡ solid word ++ solid (join words)
unfolding solid join
solid-flush [] words = refl
solid-flush (c ∷ word) [] = sym (append-nil (solid (c ∷ word)))
solid-flush (c ∷ word) (next ∷ words) = solid-append (c ∷ word) (32 ∷ join (next ∷ words))

-- The characters of the words, with the one that is being read.
solid-split_loop :
    (word text : List ℕ) → Solid word → solid (join (split_loop word text)) ≡ word ++ solid text
unfolding solid join
solid-split_loop word [] h =
    ap (λ ws. solid (join ws)) (split_loop-nil word)
    ∙ solid-flush word []
    ∙ ap (λ (l : List ℕ). l ++ []) (solid-Solid word h)
solid-split_loop word (c ∷ cs) h =
    by_space (is_space c) refl (solid-split_loop [] cs tt) (λ w t. solid-split_loop w cs t)
  where
    by_space :
        (b : Bool)
        → is_space c ≡ b
        → solid (join (split_loop [] cs)) ≡ solid cs
        → ((w : List ℕ) → Solid w → solid (join (split_loop w cs)) ≡ w ++ solid cs)
        → solid (join (split_loop word (c ∷ cs))) ≡ word ++ solid (c ∷ cs)
    by_space true e rest longer =
        ap (λ ws. solid (join ws)) (split_loop-space word c cs e)
        ∙ solid-flush word (split_loop [] cs)
        ∙ rw (solid-Solid word h, rest, e) refl
    by_space false e rest longer =
        ap (λ ws. solid (join ws)) (split_loop-solid word c cs e)
        ∙ longer (word ++ c ∷ []) (All-append (λ d. is_space d ≡ false) word (c ∷ []) h (e, tt))
        ∙ append_assoc word (c ∷ []) (solid cs)
        ∙ rw e refl

pub solid-join-split : (text : List ℕ) → solid (join (split text)) ≡ solid text
unfolding split
solid-join-split text = solid-split_loop [] text tt
