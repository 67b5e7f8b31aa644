-- ===== src/Decoding/Ctc.antt =====
-- decoding/ctc.py: collapsing frame labels, and the greedy decoder over numpy arrays.
pub mod Laws
use jpapt_v2_2_inspection.Base.{
  Bool, true, false, not, ◌&&◌, Option, none, some, List, [], ◌∷◌, ◌++◌, map, Result, ok, err,
  ◌>>=◌, if◌then◌else◌,
}
use jpapt_v2_2_inspection.Base.Int.{ℤ, eq_ℤ}

-- `token != previous`, where `previous` is `None` before the first frame.
abbrev pub differs : ℤ → Option ℤ → Bool
differs token none = true
differs token (some previous) = not (eq_ℤ token previous)

-- The loop over the frames: the label of the frame before, and the result so far.
pub ctc_loop : ℤ → Option ℤ → List ℤ → List ℤ → List ℤ
ctc_loop blank_id previous result [] = result
ctc_loop blank_id previous result (token ∷ rest) =
    ctc_loop blank_id (some token)
      (if differs token previous && not (eq_ℤ token blank_id) then result ++ token ∷ [] else result)
      rest

unfoldable pub ctc_collapse : List ℤ → ℤ → List ℤ
unfolding ctc_loop
ctc_collapse token_ids blank_id = ctc_loop blank_id none [] token_ids

-- An array of logits by its rank; what numpy keeps in it is left open.
pub data Logits (Matrix Batch : Type 0) : Type 0 where
  rank2 : Matrix → Logits Matrix Batch
  rank3 : Batch → Logits Matrix Batch
  other_rank : Logits Matrix Batch

pub data CtcIds : Type 0 where
  single : List ℤ → CtcIds
  batch : List (List ℤ) → CtcIds

pub data CtcError : Type 0 where
  bad_rank : CtcError
  empty_argmax : CtcError

-- `np.argmax(values, axis=-1)` is a parameter at each rank; it raises on an empty last axis.
module _ {Matrix Batch : Type 0} (argmax2 : Matrix → Result CtcError (List ℤ))
    (argmax3 : Batch → Result CtcError (List (List ℤ))) where
  unfoldable pub greedy_ctc_ids : Logits Matrix Batch → ℤ → Result CtcError CtcIds
  greedy_ctc_ids (rank2 values) blank_id = do
    ids ← argmax2 values
    ok (single (ctc_collapse ids blank_id))
  greedy_ctc_ids (rank3 values) blank_id = do
    rows ← argmax3 values
    ok (batch (map (λ row. ctc_collapse row blank_id) rows))
  greedy_ctc_ids other_rank blank_id = err bad_rank
