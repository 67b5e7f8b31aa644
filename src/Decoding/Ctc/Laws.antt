-- ===== src/Decoding/Ctc/Laws.antt =====
-- What the CTC collapse computes, against descriptions that share nothing with its loop.
use jpapt_v2_2_inspection.Base.{
  ℕ, zero, suc, ◌≤◌, ◌≡◌, refl, ap, ◌∙◌, ◌≢◌, Bool, true, false, not, ◌&&◌, Option, none, some,
  List, [], ◌∷◌, ◌++◌, map, append-nil, append_assoc, Result, ok, ok-injective, >>=-eq-ok,
  if◌then◌else◌, arith, length, All, keep, Bool-cases, inl, inr,
}
use jpapt_v2_2_inspection.Base.Int.{ℤ, eq_ℤ, eq_ℤ_iff}
use jpapt_v2_2_inspection.Decoding.Ctc.{
  differs, ctc_loop, ctc_collapse, Logits, rank2, rank3, other_rank, CtcIds, single, batch,
  CtcError, greedy_ctc_ids,
}

-- One label for each run of equal frames.
pub runs : Option ℤ → List ℤ → List ℤ
runs previous [] = []
runs previous (x ∷ xs) = if differs x previous then x ∷ runs (some x) xs else runs (some x) xs

-- Frames with their blanks left out.
abbrev pub without_blank : ℤ → List ℤ → List ℤ
without_blank blank_id = keep (λ x. not (eq_ℤ x blank_id))

ctc_loop-runs :
    (blank_id : ℤ) (previous : Option ℤ) (result ids : List ℤ)
    → ctc_loop blank_id previous result ids ≡ result ++ without_blank blank_id (runs previous ids)
unfolding ctc_loop runs
ctc_loop-runs b previous result [] = rw append-nil
ctc_loop-runs b previous result (x ∷ xs) =
    ctc_loop-runs b (some x) _ xs ∙ keeps (differs x previous) (not (eq_ℤ x b)) refl
  where
    keeps :
        (d n : Bool)
        → not (eq_ℤ x b) ≡ n
        → (if d && n then result ++ x ∷ [] else result) ++ without_blank b (runs (some x) xs)
          ≡ result ++ without_blank b (if d then x ∷ runs (some x) xs else runs (some x) xs)
    keeps true true e = rw (e, append_assoc)
    keeps true false e = rw e
    keeps false n e = refl

-- Collapsing is: one label for each run of equal frames, then no blanks.
pub ctc_collapse-runs :
    (ids : List ℤ) (blank_id : ℤ)
    → ctc_collapse ids blank_id ≡ without_blank blank_id (runs none ids)
unfolding ctc_collapse
ctc_collapse-runs ids blank_id = ctc_loop-runs blank_id none [] ids

-- A label, how often it is repeated after its first frame, and the blanks after the first one.
pub record Segment : Type 0 where
  pub label : ℤ
  pub repeats : ℕ
  pub gap : ℕ

abbrev pub copies : ℕ → ℤ → List ℤ → List ℤ
copies zero x rest = rest
copies (suc n) x rest = x ∷ copies n x rest

-- The frames that spell the segments, with blanks between them.
abbrev pub frames_of : ℤ → List Segment → List ℤ
frames_of blank_id [] = []
frames_of blank_id (s ∷ rest) =
    copies (suc s.repeats) s.label (copies (suc s.gap) blank_id (frames_of blank_id rest))

eq_ℤ-refl : (x : ℤ) → eq_ℤ x x ≡ true
eq_ℤ-refl x = (eq_ℤ_iff x x).1 refl

eq_ℤ-ne : (x y : ℤ) → x ≢ y → eq_ℤ x y ≡ false
eq_ℤ-ne x y n = elim (Bool-cases (eq_ℤ x y)) [ inl e ↦ absurd (n ((eq_ℤ_iff x y).0 e)) | inr e ↦ e ]

module _ (b : ℤ) where
  -- One round of the loop, by what its two tests say.
  ctc_loop-cons :
      (previous : Option ℤ) (result : List ℤ) (x : ℤ) (rest : List ℤ)
      → ctc_loop b previous result (x ∷ rest)
        ≡ ctc_loop b
            (some x)
            (if differs x previous && not (eq_ℤ x b) then result ++ x ∷ [] else result)
            rest
  unfolding ctc_loop
  ctc_loop-cons previous result x rest = refl

  ctc_loop-skip :
      (previous : Option ℤ) (result : List ℤ) (x : ℤ) (rest : List ℤ)
      → (differs x previous && not (eq_ℤ x b)) ≡ false
      → ctc_loop b previous result (x ∷ rest) ≡ ctc_loop b (some x) result rest
  ctc_loop-skip previous result x rest e =
      ctc_loop-cons previous result x rest
      ∙ ap (λ d. ctc_loop b (some x) (if d then result ++ x ∷ [] else result) rest) e

  ctc_loop-emit :
      (previous : Option ℤ) (result : List ℤ) (x : ℤ) (rest : List ℤ)
      → (differs x previous && not (eq_ℤ x b)) ≡ true
      → ctc_loop b previous result (x ∷ rest) ≡ ctc_loop b (some x) (result ++ x ∷ []) rest
  ctc_loop-emit previous result x rest e =
      ctc_loop-cons previous result x rest
      ∙ ap (λ d. ctc_loop b (some x) (if d then result ++ x ∷ [] else result) rest) e

  ctc_loop-copies_same :
      (n : ℕ) (x : ℤ) (result rest : List ℤ)
      → ctc_loop b (some x) result (copies n x rest) ≡ ctc_loop b (some x) result rest
  ctc_loop-copies_same zero x result rest = refl
  ctc_loop-copies_same (suc n) x result rest =
      ctc_loop-skip (some x) result x (copies n x rest)
        (ap (λ d. not d && not (eq_ℤ x b)) (eq_ℤ-refl x))
      ∙ ctc_loop-copies_same n x result rest

  ctc_loop-copies_blank :
      (n : ℕ) (previous : Option ℤ) (result rest : List ℤ)
      → ctc_loop b previous result (copies (suc n) b rest) ≡ ctc_loop b (some b) result rest
  ctc_loop-copies_blank n previous result rest =
      ctc_loop-skip previous result b (copies n b rest)
        (ap (λ d. differs b previous && not d) (eq_ℤ-refl b) ∙ and-false (differs b previous))
      ∙ ctc_loop-copies_same n b result rest
    where
      and-false : (d : Bool) → (d && false) ≡ false
      and-false d = ground arith

  ctc_loop-frames_of :
      (segments : List Segment) (previous : Option ℤ) (result : List ℤ)
      → ((x : ℤ) → x ≢ b → differs x previous ≡ true)
      → All (λ s. s.label ≢ b) segments
      → ctc_loop b previous result (frames_of b segments) ≡ result ++ map (λ s. s.label) segments
  ctc_loop-frames_of [] previous result fresh h = unfold ctc_loop in rw append-nil
  ctc_loop-frames_of (s ∷ rest) previous result fresh h =
      ctc_loop-emit previous result s.label _
        (ap (λ d. d && not (eq_ℤ s.label b)) (fresh s.label h.0) ∙ ap not (eq_ℤ-ne s.label b h.0))
      ∙ ctc_loop-copies_same s.repeats s.label (result ++ s.label ∷ []) _
      ∙ ctc_loop-copies_blank s.gap (some s.label) (result ++ s.label ∷ []) _
      ∙ ctc_loop-frames_of rest (some b) (result ++ s.label ∷ []) (λ x n. ap not (eq_ℤ-ne x b n))
          h.1
      ∙ append_assoc result (s.label ∷ []) (map (λ t. t.label) rest)

-- Frames that spell labels collapse to these labels, equal neighbours included, if no label is the
-- blank, whatever the repeats and gaps. At least one blank frame follows each label's frames.
pub ctc_collapse-frames_of :
    (segments : List Segment) (blank_id : ℤ)
    → All (λ s. s.label ≢ blank_id) segments
    → ctc_collapse (frames_of blank_id segments) blank_id ≡ map (λ s. s.label) segments
unfolding ctc_collapse
ctc_collapse-frames_of segments b h = ctc_loop-frames_of b segments none [] (λ x n. refl) h

ne_of_eq_ℤ : (x y : ℤ) → eq_ℤ x y ≡ false → x ≢ y
ne_of_eq_ℤ x y e p = cc (e, (eq_ℤ_iff x y).1 p)

without_blank-All : (b : ℤ) (xs : List ℤ) → All (λ x. x ≢ b) (without_blank b xs)
without_blank-All b [] = tt
without_blank-All b (x ∷ xs) = split (eq_ℤ x b) refl (without_blank-All b xs)
  where
    split :
        (d : Bool)
        → eq_ℤ x b ≡ d
        → All (λ y. y ≢ b) (without_blank b xs)
        → All (λ y. y ≢ b) (if not d then x ∷ without_blank b xs else without_blank b xs)
    split true e h = h
    split false e h = (ne_of_eq_ℤ x b e, h)

without_blank-runs-le :
    (b : ℤ) (previous : Option ℤ) (xs : List ℤ)
    → length (without_blank b (runs previous xs)) ≤ length xs
unfolding runs
without_blank-runs-le b previous [] = omega arith
without_blank-runs-le b previous (x ∷ xs) = ground (arith, without_blank-runs-le b (some x) xs)

-- Every id list of a result, one by one.
abbrev pub EachIds : (List ℤ → Type 0) → CtcIds → Type 0
EachIds P (single ids) = P ids
EachIds P (batch rows) = All P rows

abbrev pub NoBlank : ℤ → List ℤ → Type 0
NoBlank b = All (λ x. x ≢ b)

ctc_collapse-NoBlank : (b : ℤ) (ids : List ℤ) → NoBlank b (ctc_collapse ids b)
ctc_collapse-NoBlank b ids = rw (ctc_collapse-runs ids b) (without_blank-All b (runs none ids))

-- Collapsing never lengthens a list of frames.
pub length-ctc_collapse-le : (b : ℤ) (ids : List ℤ) → length (ctc_collapse ids b) ≤ length ids
length-ctc_collapse-le b ids = rw (ctc_collapse-runs ids b) (without_blank-runs-le b none ids)

collapse_rows-NoBlank :
    (b : ℤ) (rows : List (List ℤ)) → All (NoBlank b) (map (λ row. ctc_collapse row b) rows)
collapse_rows-NoBlank b [] = tt
collapse_rows-NoBlank b (row ∷ rows) = (ctc_collapse-NoBlank b row, collapse_rows-NoBlank b rows)

module _ {Matrix Batch : Type 0} (argmax2 : Matrix → Result CtcError (List ℤ))
    (argmax3 : Batch → Result CtcError (List (List ℤ))) where
  -- Whatever argmax picks, no id list that the greedy decoder returns holds the blank.
  pub greedy_ctc_ids-NoBlank :
      (logits : Logits Matrix Batch) (blank_id : ℤ) (ids : CtcIds)
      → greedy_ctc_ids argmax2 argmax3 logits blank_id ≡ ok ids
      → EachIds (NoBlank blank_id) ids
  unfolding greedy_ctc_ids
  greedy_ctc_ids-NoBlank (rank2 values) b ids h =
      let (labels, _, e) = >>=-eq-ok (argmax2 values) _ h in
      rw (← ok-injective e) (ctc_collapse-NoBlank b labels)
  greedy_ctc_ids-NoBlank (rank3 values) b ids h =
      let (rows, _, e) = >>=-eq-ok (argmax3 values) _ h in
      rw (← ok-injective e) (collapse_rows-NoBlank b rows)
  greedy_ctc_ids-NoBlank other_rank b ids h = cc
