-- ===== src/Contracts/Strip.antt =====
-- `str.strip` on texts, as the contract and revision readers use it.
use jpapt_v2_2_inspection.Base.{
  ◌≡◌, refl, sym, ap, ◌∙◌, String, Bool, true, false, ◌&&◌, inl, inr, Bool-cases, if◌then◌else◌,
}
use Prim.Native.Char.{Char, code}
use jpapt_v2_2_inspection.Evaluation.Metrics.Words.{is_space}

unfoldable pub lstrip : String → String
lstrip String.[] = String.[]
lstrip (String.◌∷◌ c s) = let rest = lstrip s in if is_space (code c) then rest else String.◌∷◌ c s

-- A character before a stripped rest: left out if it is white and the rest is empty.
abbrev pub before : Bool → String → String → String
before white kept String.[] = if white then String.[] else kept
before white kept (String.◌∷◌ d t) = kept

unfoldable pub rstrip : String → String
rstrip String.[] = String.[]
rstrip (String.◌∷◌ c s) = before (is_space (code c)) (String.◌∷◌ c (rstrip s)) (rstrip s)

unfoldable pub strip : String → String
unfolding lstrip rstrip
strip s = rstrip (lstrip s)

abbrev pub is_empty : String → Bool
is_empty String.[] = true
is_empty (String.◌∷◌ c s) = false

-- `not s.strip()`
unfoldable pub is_blank : String → Bool
unfolding strip
is_blank s = is_empty (strip s)

-- Every character is white.
abbrev all_white : String → Bool
all_white String.[] = true
all_white (String.◌∷◌ c s) = is_space (code c) && all_white s

lstrip_white : (s : String) → all_white (lstrip s) ≡ all_white s
unfolding lstrip
lstrip_white String.[] = refl
lstrip_white (String.◌∷◌ c s) = elim (Bool-cases (is_space (code c))) [
  | inl e ↦ rw e (lstrip_white s)
  | inr e ↦ rw e (rw e refl)
]

before_white :
    (white : Bool) (kept rest : String)
    → all_white kept ≡ (white && all_white rest)
    → all_white (before white kept rest) ≡ (white && all_white rest)
before_white true kept String.[] h = refl
before_white false kept String.[] h = h
before_white white kept (String.◌∷◌ d t) h = h

rstrip_white : (s : String) → all_white (rstrip s) ≡ all_white s
unfolding rstrip
rstrip_white String.[] = refl
rstrip_white (String.◌∷◌ c s) =
    before_white (is_space (code c)) (String.◌∷◌ c (rstrip s)) (rstrip s) refl
    ∙ ap (λ b. is_space (code c) && b) (rstrip_white s)

-- What is right-stripped is empty or holds a character that is not white.
rstrip_empty : (s : String) → is_empty (rstrip s) ≡ all_white s
unfolding rstrip
rstrip_empty String.[] = refl
rstrip_empty (String.◌∷◌ c s) = ends (is_space (code c)) (rstrip s) (rstrip_empty s)
  where
    ends :
        (white : Bool) (rest : String)
        → is_empty rest ≡ all_white s
        → is_empty (before white (String.◌∷◌ c rest) rest) ≡ (white && all_white s)
    ends true String.[] h = h
    ends false String.[] h = refl
    ends true (String.◌∷◌ d t) h = h
    ends false (String.◌∷◌ d t) h = refl

blank-white : (s : String) → is_blank s ≡ all_white s
unfolding is_blank strip
blank-white s = rstrip_empty (lstrip s) ∙ lstrip_white s

-- Stripping leaves a text blank exactly if it was.
pub is_blank-strip : (s : String) → is_blank (strip s) ≡ is_blank s
unfolding strip
is_blank-strip s =
    blank-white (strip s) ∙ rstrip_white (lstrip s) ∙ lstrip_white s ∙ sym (blank-white s)

-- A text that begins with a character that is not white is not blank.
pub solid-not_blank :
    (c : Char) (s : String) → is_space (code c) ≡ false → is_blank (String.◌∷◌ c s) ≡ false
solid-not_blank c s h = blank-white (String.◌∷◌ c s) ∙ rw h refl
