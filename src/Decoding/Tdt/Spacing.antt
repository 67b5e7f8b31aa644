-- ===== src/Decoding/Tdt/Spacing.antt =====
-- Symbols in time: each is over before the next one starts.
use jpapt_v2_2_inspection.Base.{
  ℕ, ◌+◌, ◌≤◌, ◌<◌, ◌≡◌, refl, List, [], ◌∷◌, ◌++◌, arith, All, All-append, count,
}

-- The symbol at `p` of duration `d` ends before each later one starts, and before `end`.
abbrev pub Spaced : List ℕ → List ℕ → ℕ → Type 0
Spaced [] [] end = Unit
Spaced (p ∷ ps) (d ∷ ds) end = All (λ q. p + d ≤ q) ps × (p + d ≤ end) × Spaced ps ds end
Spaced [] (_ ∷ _) end = ⊥
Spaced (_ ∷ _) [] end = ⊥

pub Spaced-later : (ps ds : List ℕ) (e e' : ℕ) → Spaced ps ds e → e ≤ e' → Spaced ps ds e'
Spaced-later [] [] e e' h le = tt
Spaced-later [] (_ ∷ _) e e' h le = h
Spaced-later (_ ∷ _) [] e e' h le = h
Spaced-later (p ∷ ps) (d ∷ ds) e e' h le = (h.0, omega arith, Spaced-later ps ds e e' h.2 le)

pub Spaced-append :
    (ps ds : List ℕ) (t d e : ℕ)
    → Spaced ps ds t
    → t + d ≤ e
    → Spaced (ps ++ t ∷ []) (ds ++ d ∷ []) e
Spaced-append [] [] t d e h le = (tt, le, tt)
Spaced-append [] (_ ∷ _) t d e h le = absurd h
Spaced-append (_ ∷ _) [] t d e h le = absurd h
Spaced-append (p ∷ ps) (b ∷ ds) t d e h le = (
  All-append (λ q. p + b ≤ q) ps (t ∷ []) h.0 (h.1, tt),
  omega arith,
  Spaced-append ps ds t d e h.2 le,
)

pub Spaced-All-le : (ps ds : List ℕ) (e : ℕ) → Spaced ps ds e → All (λ p. p ≤ e) ps
Spaced-All-le [] ds e h = tt
Spaced-All-le (_ ∷ _) [] e h = absurd h
Spaced-All-le (p ∷ ps) (d ∷ ds) e h = (omega arith, Spaced-All-le ps ds e h.2)

pub count_above : (a e : ℕ) (ps : List ℕ) → All (λ p. p ≤ e) ps → e < a → count a ps ≡ 0
count_above a e [] h lt = refl
count_above a e (p ∷ ps) h lt = ground (arith, count_above a e ps h.1 lt)
