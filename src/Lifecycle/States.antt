-- ===== src/Lifecycle/States.antt =====
-- The state that a snapshot names (scripts/ci/candidate_lifecycle_common.py).
use jpapt_v2_2_inspection.Base.{
  ◌≡◌, refl, sym, ap, ◌∙◌, String, Option, none, some, List, [], ◌∷◌, inl, inr, Bool-cases, eq_iff,
  str_eq,
}
use mathlib.Core.Option.{some-injective}
use jpapt_v2_2_inspection.Base.Json.{Json, null, bool, int, real, str, arr, tuple, obj}
use jpapt_v2_2_inspection.Lifecycle.Snapshot.{State, states, named_state, state_text, state_of}

named_state-text :
    (s : String) (all : List State) (state : State)
    → named_state s all ≡ some state
    → s ≡ state_text state
unfolding named_state
named_state-text s [] state h = cc
named_state-text s (first ∷ rest) state h = elim (Bool-cases (str_eq s (state_text first))) [
  | inl e ↦
      let here : named_state s (first ∷ rest) ≡ some first = rw e refl in
      (eq_iff s (state_text first)).0 e ∙ ap state_text (some-injective _ _ (sym here ∙ h))
  | inr e ↦ named_state-text s rest state (rw e at h)
]

pub state_named :
    (o : Option Json) (state : State) → state_of o ≡ some state → o ≡ some (str (state_text state))
state_named none state h = cc
state_named (some (str s)) state h = ap (λ t. some (str t)) (named_state-text s states state h)
state_named (some null) state h = cc
state_named (some (bool b)) state h = cc
state_named (some (int n)) state h = cc
state_named (some (real r)) state h = cc
state_named (some (arr xs)) state h = cc
state_named (some (tuple xs)) state h = cc
state_named (some (obj fields)) state h = cc
