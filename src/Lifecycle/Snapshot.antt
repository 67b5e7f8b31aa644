-- ===== src/Lifecycle/Snapshot.antt =====
-- scripts/ci/candidate_protocol_common.py, candidate_lifecycle_common.py, and `validate` of
-- build-candidate-request-lifecycle.py. A snapshot is the dictionary that its JSON file holds.
use jpapt_v2_2_inspection.Base.{
  ℕ, suc, String, Bool, true, false, ◌&&◌, ◌||◌, Option, none, some, List, [], ◌∷◌, Result, ok, err,
  ◌>>=◌, ◌>>◌, ensure, raise_if, require, if◌then◌else◌, length, all, any, ltb, leb, ◌==◌, str_eq,
}
use jpapt_v2_2_inspection.Base.Int.{ℤ, pos, eq_ℤ}
use jpapt_v2_2_inspection.Base.Json.{Json, null, bool, int, real, str, whole, Fields, find, keys}
use jpapt_v2_2_inspection.Base.Text.{codes}

pub data LifecycleError : Type 0 where
  bad_time : LifecycleError
  fields_mismatch bad_schema_version bad_request_id bad_execution_id bad_state : LifecycleError
  bad_repository bad_run_number bad_receipt_sha256 : LifecycleError
  needs_gateway_run needs_evaluation_run needs_receipt needs_receiver_run : LifecycleError
  request_id_mismatch execution_id_mismatch state_mismatch no_candidates : LifecycleError
  bad_candidate unreadable bad_request_key bad_events bad_event bad_sources : LifecycleError
  duplicate_observation digest_mismatch not_ordered bad_current_state : LifecycleError

-- `STATES`
pub data State : Type 0 where
  planned dispatched running rejected completed acknowledged : State

abbrev pub state_text : State → String
state_text planned = "planned"
state_text dispatched = "dispatched"
state_text running = "running"
state_text rejected = "rejected"
state_text completed = "completed"
state_text acknowledged = "acknowledged"

-- `STATE_RANK`
abbrev pub state_rank : State → ℕ
state_rank planned = 0
state_rank dispatched = 1
state_rank running = 2
state_rank rejected = 3
state_rank completed = 4
state_rank acknowledged = 5

abbrev pub states : List State
states = planned ∷ dispatched ∷ running ∷ rejected ∷ completed ∷ acknowledged ∷ []

-- The state of the list that a text names.
unfoldable pub named_state : String → List State → Option State
named_state s [] = none
named_state s (state ∷ rest) =
    if str_eq s (state_text state) then some state else named_state s rest

-- The state that a value names, if it is one of `STATES`.
abbrev pub state_of : Option Json → Option State
state_of (some (str s)) = named_state s states
state_of _ = none

-- What `datetime.fromisoformat` returns, as far as it is read: a point in time and whether it has a
-- UTC offset.
pub record DateTime : Type 0 where
  pub instant : ℤ
  pub has_offset : Bool

-- `value[:-1] + "+00:00"` after a final Z.
unfoldable pub with_offset : List ℕ → List ℕ
with_offset [] = []
with_offset (c ∷ []) = if c == 90 then codes "+00:00" else c ∷ []
with_offset (c ∷ d ∷ cs) = c ∷ with_offset (d ∷ cs)

-- The characters of identifiers and repository names.
abbrev pub alphanumeric : ℕ → Bool
alphanumeric c = (leb 48 c && leb c 57) || (leb 65 c && leb c 90) || (leb 97 c && leb c 122)

abbrev pub request_char : ℕ → Bool
request_char c = alphanumeric c || c == 46 || c == 95 || c == 58 || c == 45

abbrev pub name_char : ℕ → Bool
name_char c = alphanumeric c || c == 95 || c == 46 || c == 45

abbrev pub hex_char : ℕ → Bool
hex_char c = (leb 48 c && leb c 57) || (leb 97 c && leb c 102)

-- `REQUEST_ID_RE`
unfoldable pub is_request_id : String → Bool
is_request_id s =
    leb 1 (length (codes s)) && leb (length (codes s)) 128 && all request_char (codes s)

-- `REPOSITORY_RE`, after `n` characters of the owner.
unfoldable pub repository_from : ℕ → List ℕ → Bool
repository_from n [] = false
repository_from n (c ∷ cs) =
    let rest = repository_from (suc n) cs in
    if c == 47 then ltb 0 n && ltb 0 (length cs) && all name_char cs else name_char c && rest

unfoldable pub is_repository : String → Bool
unfolding repository_from
is_repository s = repository_from 0 (codes s)

-- `SHA256_RE`
unfoldable pub is_sha256 : String → Bool
is_sha256 s = length (codes s) == 64 && all hex_char (codes s)

-- A text that passes the test.
abbrev pub text_value : (String → Bool) → Option Json → Bool
text_value test (some (str s)) = test s
text_value test _ = false

-- `d.get(key)` is None.
abbrev pub is_none : Option Json → Bool
is_none none = true
is_none (some null) = true
is_none (some _) = false

-- The integer of a value: a Boolean is one in Python.
abbrev pub integer_of : Option Json → Option ℤ
integer_of (some (int n)) = some n
integer_of (some (bool true)) = some (pos 1)
integer_of (some (bool false)) = some (pos 0)
integer_of _ = none

-- `isinstance(value, int) and value >= 1`
abbrev pub positive : Option ℤ → Bool
positive (some (pos (suc n))) = true
positive (some _) = false
positive none = false

abbrev pub is_positive : Option Json → Bool
is_positive v = positive (integer_of v)

-- `value != 1` is false for 1, 1.0 and True.
abbrev pub is_one : Option Json → Bool
is_one (some (int n)) = eq_ℤ n (pos 1)
is_one (some (bool b)) = b
is_one (some (real (whole n))) = eq_ℤ n (pos 1)
is_one _ = false

abbrev pub required_fields : List String
required_fields =
    "schema_version" ∷ "request_id" ∷ "state" ∷ "source_repository" ∷ "receipt_repository"
    ∷ "orchestrator_repository" ∷ "gateway_run_id" ∷ "evaluation_run_id" ∷ "evaluation_run_attempt"
    ∷ "receipt_sha256" ∷ "receiver_run_id" ∷ "updated_at" ∷ []

abbrev pub contains : List String → String → Bool
contains xs s = any (str_eq s) xs

-- No field is missing and none is unknown.
unfoldable pub fields_match : Fields → Bool
unfolding keys
fields_match snapshot =
    all (contains (keys snapshot)) required_fields
    && all (contains ("request_execution_id" ∷ required_fields)) (keys snapshot)

-- What a state asks of the run numbers and the receipt.
unfoldable pub check_state : State → Fields → Result LifecycleError (Unit {0})
check_state state snapshot = do
  raise_if
      (elim state [ dispatched ↦ true | rejected ↦ true | _ ↦ false ]
        && is_none (find "gateway_run_id" snapshot))
      needs_gateway_run
  raise_if
      (elim state [ running ↦ true | completed ↦ true | acknowledged ↦ true | _ ↦ false ]
        && (is_none (find "evaluation_run_id" snapshot)
            || is_none (find "evaluation_run_attempt" snapshot)))
      needs_evaluation_run
  raise_if
      (elim state [ completed ↦ true | acknowledged ↦ true | _ ↦ false ]
        && is_none (find "receipt_sha256" snapshot))
      needs_receipt
  raise_if
      (elim state [ acknowledged ↦ true | _ ↦ false ] && is_none (find "receiver_run_id" snapshot))
      needs_receiver_run

abbrev pub run_number : String → Fields → Result LifecycleError (Unit {0})
run_number key snapshot =
    ensure (is_none (find key snapshot) || is_positive (find key snapshot)) bad_run_number

-- `datetime.fromisoformat` is a parameter; `none`: it raises ValueError.
module _ (from_iso : List ℕ → Option DateTime) where
  -- `parse_rfc3339_time` of a value.
  unfoldable pub parse_time : Option Json → Result LifecycleError ℤ
  unfolding with_offset
  parse_time (some (str s)) = do
    raise_if (str_eq s "") bad_time
    parsed ← require (from_iso (with_offset (codes s))) bad_time
    ensure parsed.has_offset bad_time
    ok parsed.instant
  parse_time _ = err bad_time

  unfoldable pub validate : Fields → Result LifecycleError (Unit {0})
  unfolding fields_match is_request_id is_repository is_sha256 check_state parse_time find
      named_state
  validate snapshot = do
    ensure (fields_match snapshot) fields_mismatch
    ensure (is_one (find "schema_version" snapshot)) bad_schema_version
    ensure (text_value is_request_id (find "request_id" snapshot)) bad_request_id
    let execution = find "request_execution_id" snapshot
    ensure (is_none execution || text_value is_request_id execution) bad_execution_id
    state ← require (state_of (find "state" snapshot)) bad_state
    ensure (text_value is_repository (find "source_repository" snapshot)) bad_repository
    ensure (text_value is_repository (find "receipt_repository" snapshot)) bad_repository
    ensure (text_value is_repository (find "orchestrator_repository" snapshot)) bad_repository
    run_number "gateway_run_id" snapshot
    run_number "evaluation_run_id" snapshot
    run_number "evaluation_run_attempt" snapshot
    run_number "receiver_run_id" snapshot
    let receipt = find "receipt_sha256" snapshot
    ensure (is_none receipt || text_value is_sha256 receipt) bad_receipt_sha256
    check_state state snapshot
    _ ← parse_time (find "updated_at" snapshot)
    ok tt
