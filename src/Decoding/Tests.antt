-- ===== src/Decoding/Tests.antt =====
-- Runs of the decoders at concrete inputs.
use jpapt_v2_2_inspection.Base.{
  ℕ, suc, ◌<◌, ◌≡◌, refl, ◌≢◌, ◌↔◌, Bool, true, false, Option, none, some, List, [], ◌∷◌, Result,
  ok, arith, length, leb, get_elem?, if◌then◌else◌,
}
use jpapt_v2_2_inspection.Base.Int.{ℤ, pos, negsuc}
use jpapt_v2_2_inspection.Decoding.Ctc.{ctc_collapse, Logits, CtcIds, CtcError, greedy_ctc_ids}
use jpapt_v2_2_inspection.Decoding.Ctc.Laws.{
  ctc_collapse-runs, ctc_collapse-frames_of, greedy_ctc_ids-NoBlank, Segment, runs, without_blank,
  EachIds, NoBlank,
}
use jpapt_v2_2_inspection.Decoding.Ctc.Laws as Laws
use jpapt_v2_2_inspection.Decoding.Tdt.{
  TdtError, TdtDecoderConfig, post_init, TdtDecodeResult, rank2, frames_of, greedy_tdt_decode,
}
use jpapt_v2_2_inspection.Decoding.Tdt.Config.{Holds, post_init_iff}
use jpapt_v2_2_inspection.Decoding.Tdt.Termination.{greedy_tdt_decode-ne-none}
use jpapt_v2_2_inspection.Decoding.Tdt.Total.{IsWorking, greedy_tdt_decode-returns}

abbrev value_at : List ℕ → ℕ → ℕ
value_at xs i = elim (get_elem? xs i) [ none ↦ 0 | some v ↦ v ]

-- The first index of the greatest number.
abbrev argmax : List ℕ → Option ℕ
argmax [] = none
argmax (x ∷ xs) = elim (argmax xs) [
  | none ↦ some 0
  | some i ↦ if leb (value_at xs i) x then some 0 else some (suc i)
]

abbrev predictor_step : ℤ → ℕ → Result TdtError (ℕ × ℕ)
predictor_step token state = ok (state, suc state)

-- A frame of 0 reads as token 1 and any other as the blank; the first prediction has duration 1.
abbrev joint_step : ℕ → ℕ → Result TdtError (List ℕ × List ℕ)
joint_step frame predictor = ok (frame ∷ 1 ∷ [], predictor ∷ 1 ∷ [])

abbrev config : TdtDecoderConfig
config = record {
  blank_id = pos 0;
  bos_id = negsuc 0;
  durations = 0 ∷ 1 ∷ [];
  max_symbols_per_step = 2;
}

abbrev frames : List ℕ
frames = 0 ∷ 0 ∷ 3 ∷ []

abbrev decoded : TdtDecodeResult
decoded = record {
  token_ids = pos 1 ∷ pos 1 ∷ pos 1 ∷ [];
  frame_positions = 0 ∷ 1 ∷ 1 ∷ [];
  durations = 1 ∷ 0 ∷ 0 ∷ [];
}

picks : (xs : List ℕ) → 0 < length xs → (i : ℕ) × (argmax xs ≡ some i) × (i < length xs)
picks [] h = absurd (omega arith)
picks (x ∷ []) h = (0, refl, omega arith)
picks (x ∷ y ∷ ys) h =
    let (i, e, below) = picks (y ∷ ys) (omega arith) in
    choose i (leb (value_at (y ∷ ys) i) x) refl e below
  where
    choose :
        (i : ℕ) (b : Bool)
        → leb (value_at (y ∷ ys) i) x ≡ b
        → argmax (y ∷ ys) ≡ some i
        → i < suc (length ys)
        → (j : ℕ) × (argmax (x ∷ y ∷ ys) ≡ some j) × (j < suc (suc (length ys)))
    choose i true t e below = (0, rw (e, t) refl, omega arith)
    choose i false t e below = (suc i, rw (e, t) refl, omega arith)

working : IsWorking argmax predictor_step joint_step 2
working = record {
  picks = picks;
  predicts = λ x s. ((s, suc s), refl);
  joins = λ f p. ((f ∷ 1 ∷ [], p ∷ 1 ∷ []), refl, omega arith, refl);
}

greedy_tdt_decode-ne-none_example :
    greedy_tdt_decode argmax predictor_step joint_step config (rank2 frames) 0 ≢ none
greedy_tdt_decode-ne-none_example =
    greedy_tdt_decode-ne-none argmax predictor_step joint_step config (rank2 frames) 0 (omega arith)

accepted : frames_of (rank2 frames) ≡ ok frames
unfolding frames_of
accepted = refl

greedy_tdt_decode-returns_example :
    (r : TdtDecodeResult) × (greedy_tdt_decode argmax predictor_step joint_step config
        (rank2 frames)
        0
      ≡ some (ok r))
greedy_tdt_decode-returns_example =
    greedy_tdt_decode-returns argmax predictor_step joint_step config working (omega arith)
      (rank2 frames) 0 frames (omega arith) accepted

post_init_iff_example :
    (post_init (pos 0) (negsuc 0) (pos 0 ∷ pos 1 ∷ []) (pos 2) ≡ ok config)
    ↔ Holds (pos 0) (negsuc 0) (pos 0 ∷ pos 1 ∷ []) (pos 2) config
post_init_iff_example = post_init_iff (pos 0) (negsuc 0) (pos 0 ∷ pos 1 ∷ []) (pos 2) config

abbrev labels : List ℤ
labels = pos 5 ∷ pos 5 ∷ pos 0 ∷ pos 5 ∷ pos 7 ∷ []

ctc_collapse_run : ctc_collapse labels (pos 0) ≡ pos 5 ∷ pos 5 ∷ pos 7 ∷ []
unfolding ctc_collapse
ctc_collapse_run = refl

ctc_collapse-runs_example : ctc_collapse labels (pos 0) ≡ without_blank (pos 0) (runs none labels)
ctc_collapse-runs_example = ctc_collapse-runs labels (pos 0)

abbrev segments : List Segment
segments =
    record { label = pos 5; repeats = 1; gap = 0 }
    ∷ record { label = pos 5; repeats = 0; gap = 1 }
    ∷ []

ctc_collapse-frames_of_example :
    ctc_collapse (Laws.frames_of (pos 0) segments) (pos 0) ≡ pos 5 ∷ pos 5 ∷ []
ctc_collapse-frames_of_example =
    ctc_collapse-frames_of segments (pos 0) ((λ e. cc), ((λ e. cc), tt))

abbrev argmax2 : List ℤ → Result CtcError (List ℤ)
argmax2 row = ok row

abbrev argmax3 : List (List ℤ) → Result CtcError (List (List ℤ))
argmax3 rows = ok rows

greedy_ctc_ids_run :
    greedy_ctc_ids argmax2 argmax3 (Logits.rank3 (labels ∷ [])) (pos 0)
    ≡ ok (CtcIds.batch ((pos 5 ∷ pos 5 ∷ pos 7 ∷ []) ∷ []))
unfolding greedy_ctc_ids ctc_collapse
greedy_ctc_ids_run = refl

greedy_ctc_ids-NoBlank_example :
    EachIds (NoBlank (pos 0)) (CtcIds.batch ((pos 5 ∷ pos 5 ∷ pos 7 ∷ []) ∷ []))
greedy_ctc_ids-NoBlank_example =
    greedy_ctc_ids-NoBlank argmax2 argmax3 (Logits.rank3 (labels ∷ [])) (pos 0)
      (CtcIds.batch ((pos 5 ∷ pos 5 ∷ pos 7 ∷ []) ∷ [])) greedy_ctc_ids_run
