-- ===== src/Protocol/Envelope.antt =====
-- protocol.rs: the envelope, its validation, and the constructors that the worker uses.
pub mod Wire
use pg_mcp.Prelude.{
  ℕ, String, Bool, true, false, ◌||◌, not, Option, none, some, List, [], ◌∷◌, All, ◌==◌, ok, err,
  ◌>>◌, fail_if, is_some, if◌then◌else◌, ◌≡◌, refl, arith, eq_refl,
}
use pg_mcp.Protocol.Status.{
  Check, invalid_envelope, HandleState, validate_state, IsConsistent, validate_state_complete,
}
use pg_mcp.Protocol.Moves.{Move, validate_move, next_moves, process_moves}
use pg_mcp.Protocol.Moves.Table.{IsMoveOf, moves-IsMoveOf}
use pg_mcp.Protocol.Errors.{
  CoreError, ErrorPayload, message, new_payload, try_with_sqlstate, with_unknown_outcome,
  validate_payload, bad_sqlstate, is_outcome_unknown,
}

abbrev pub envelope_version : ℕ
envelope_version = 1

pub record Envelope (T : Type 0) : Type 0 where
  pub version : ℕ
  pub handle_state : Option HandleState
  pub next_moves : List Move
  pub result : Option T
  pub error : Option ErrorPayload

-- `Envelope::success`.
unfoldable pub success : {T : Type 0} → Option HandleState → List Move → T → Envelope T
success state moves result = record {
  version = envelope_version;
  handle_state = state;
  next_moves = moves;
  result = some result;
  error = none;
}

-- `Envelope::failure`.
unfoldable pub failure : {T : Type 0} → Option HandleState → List Move → ErrorPayload → Envelope T
failure state moves error = record {
  version = envelope_version;
  handle_state = state;
  next_moves = moves;
  result = none;
  error = some error;
}

-- `if let Some(x) = o { check(x)? }`.
abbrev if_some : {A : Type 0} → (A → Check) → Option A → Check
if_some check none = ok tt
if_some check (some a) = check a

-- `for x in xs { check(x)? }`.
abbrev pub for_each {ℓ} : {A : Type ℓ} → (A → Check) → List A → Check
for_each check [] = ok tt
for_each check (x ∷ xs) = do check x; for_each check xs

-- `bool == bool`.
abbrev pub same : Bool → Bool → Bool
same true b = b
same false b = not b

-- `Envelope::validate`.
unfoldable pub validate_envelope : {T : Type 0} → Envelope T → Check
validate_envelope e = do
  fail_if (not (e.version == envelope_version) || same (is_some e.result) (is_some e.error))
      invalid_envelope
  if_some validate_state e.handle_state
  for_each validate_move e.next_moves
  if_some validate_payload e.error

-- `handle_state.as_ref().map_or_else(process_moves, next_moves)`.
abbrev pub moves_of : Option HandleState → List Move
moves_of none = process_moves
moves_of (some s) = next_moves s

-- `handle_state_envelope`, and `success_envelope` of worker.rs.
unfoldable pub success_envelope : {T : Type 0} → Option HandleState → T → Envelope T
unfolding success
success_envelope state result = success state (moves_of state) result

-- The payload of `error_envelope_with_sqlstate`: a SQLSTATE that does not validate is left out.
unfoldable pub payload_of : CoreError → Bool → Option String → ErrorPayload
unfolding new_payload try_with_sqlstate with_unknown_outcome
payload_of e unknown sqlstate =
    let payload : ErrorPayload = elim (try_with_sqlstate (new_payload e.code) sqlstate) [
      | ok p ↦ p
      | err _ ↦ new_payload e.code
    ] in
    if unknown || e.outcome_unknown then with_unknown_outcome payload else payload

-- `error_envelope_with_sqlstate`.
unfoldable pub error_envelope_with_sqlstate :
    {T : Type 0} → Option HandleState → CoreError → Bool → Option String → Envelope T
unfolding payload_of failure
error_envelope_with_sqlstate state e unknown sqlstate =
    failure state (moves_of state) (payload_of e unknown sqlstate)

-- `error_envelope`.
unfoldable pub error_envelope : {T : Type 0} → Option HandleState → CoreError → Bool → Envelope T
unfolding error_envelope_with_sqlstate
error_envelope state e unknown = error_envelope_with_sqlstate state e unknown none

-- Nothing is claimed of an envelope without a handle state.
abbrev pub StateIsConsistent : Option HandleState → Type 0
StateIsConsistent none = Unit
StateIsConsistent (some s) = IsConsistent s

for_each-All :
    (handle : String) (moves : List Move)
    → All (IsMoveOf handle) moves
    → for_each validate_move moves ≡ ok tt
for_each-All handle [] h = refl
for_each-All handle (m ∷ moves) h = cc (h.0.0, for_each-All handle moves h.1)

moves_of_valid : (state : Option HandleState) → for_each validate_move (moves_of state) ≡ ok tt
moves_of_valid none = refl
moves_of_valid (some s) = for_each-All s.handle (next_moves s) (moves-IsMoveOf s).0

state_valid :
    (state : Option HandleState) → StateIsConsistent state → if_some validate_state state ≡ ok tt
state_valid none h = refl
state_valid (some s) h = validate_state_complete s h

payload_of_valid :
    (e : CoreError) (unknown : Bool) (sqlstate : Option String)
    → validate_payload (payload_of e unknown sqlstate) ≡ ok tt
unfolding payload_of validate_payload
payload_of_valid e unknown sqlstate = ground (arith, eq_refl (message e.code))

-- The payload of an error: its code and static message are those of the core error, a SQLSTATE
-- stays exactly when it is five ASCII letters or digits, and the outcome is unknown exactly when
-- the caller or the core error says so.
pub payload_of_fields :
    (e : CoreError) (unknown : Bool) (sqlstate : Option String)
    → let p = payload_of e unknown sqlstate in
      (p.code ≡ e.code)
      × (p.message ≡ message e.code)
      × (p.sqlstate ≡ (if bad_sqlstate sqlstate then none else sqlstate))
      × (is_outcome_unknown p ≡ (unknown || e.outcome_unknown))
unfolding payload_of is_outcome_unknown
payload_of_fields e unknown sqlstate = ground arith

-- The worker's success envelopes pass `Envelope::validate`, so that they can be serialized.
pub success_envelope_valid :
    {T : Type 0} (state : Option HandleState) (result : T)
    → StateIsConsistent state
    → validate_envelope (success_envelope state result) ≡ ok tt
unfolding validate_envelope success_envelope
success_envelope_valid state result h = rw (state_valid state h, moves_of_valid state)

-- For a consistent state, or none, the error envelopes of the worker pass `Envelope::validate`,
-- whatever text the server gave as SQLSTATE.
pub error_envelope_valid :
    (T : Type 0) (state : Option HandleState) (e : CoreError) (unknown : Bool)
    (sqlstate : Option String)
    → StateIsConsistent state
    → validate_envelope (error_envelope_with_sqlstate {T = T} state e unknown sqlstate) ≡ ok tt
unfolding validate_envelope error_envelope_with_sqlstate
error_envelope_valid T state e unknown sqlstate h =
    rw (state_valid state h, moves_of_valid state) (payload_of_valid e unknown sqlstate)
