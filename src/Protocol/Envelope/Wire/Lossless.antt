-- ===== src/Protocol/Envelope/Wire/Lossless.antt =====
-- protocol.rs: what is written of an envelope is read back as it was.
use mathlib.Core.Path.{subst}
use mathlib.Core.Bool.{true≢false}
use pg_mcp.Prelude.{
  sym, ℕ, Bool, false, not, Option, none, some, List, map, Result, ok, ◌>>=◌, is_some, ◌≡◌, refl,
  arith,
}
use pg_mcp.Protocol.Json.{Value, bool, string, array, object, Fields, end, field, items, unsigned}
use pg_mcp.Protocol.Json.Derive.{Read, is_null, read_bool, nullable, option_value, read_items-map}
use pg_mcp.Protocol.Status.{ConnectionStatus, TransactionStatus, HandleState}
use pg_mcp.Protocol.Moves.{Move}
use pg_mcp.Protocol.Errors.{ErrorPayload, validate_payload}
use pg_mcp.Protocol.Errors.Wire.{DecodeError, decode_value, encode, decode-encode, encode_given}
use pg_mcp.Protocol.Envelope.{Envelope, envelope_version, validate_envelope}
use pg_mcp.Protocol.Envelope.Wire.{
  connection_name, transaction_name, read_connection, read_transaction, read_state, state_value,
  read_move, move_value, or_refused, or_invalid, decode_envelope, decode_outcome, finish_envelope,
  encode_envelope,
}

read_connection_name : (c : ConnectionStatus) → read_connection (string (connection_name c)) ≡ ok c
unfolding read_connection connection_name
read_connection_name ConnectionStatus.good = refl
read_connection_name ConnectionStatus.bad = refl
read_connection_name ConnectionStatus.closed = refl

read_transaction_name :
    (t : TransactionStatus) → read_transaction (string (transaction_name t)) ≡ ok t
unfolding read_transaction transaction_name
read_transaction_name TransactionStatus.idle = refl
read_transaction_name TransactionStatus.active = refl
read_transaction_name TransactionStatus.in_transaction = refl
read_transaction_name TransactionStatus.in_error = refl
read_transaction_name TransactionStatus.unknown = refl

read_open : (o : Option Bool) → nullable read_bool (option_value bool o) ≡ ok o
read_open none = refl
read_open (some x) = refl

pub read_state_value : (s : HandleState) → read_state (state_value s) ≡ ok s
unfolding read_state state_value
read_state_value s =
    rw
      (
        read_connection_name s.connection_status,
        read_transaction_name s.transaction_status,
        read_open s.transaction_open,
      )
      refl

read_move_value : (m : Move) → read_move (move_value m) ≡ ok m
unfolding read_move move_value
read_move_value m = refl

module _ (T : Type 0) (read : Read T) (write : T → Value) where
  abbrev reads : Value → Result (Envelope T) DecodeError
  reads = decode_envelope T read write

  abbrev writes : Envelope T → Result Value DecodeError
  writes = encode_envelope T read write

  abbrev written : Option HandleState → List Move → Fields → Value
  written state moves outcome = object (
      field "envelope_version" (unsigned envelope_version) (
        field "handle_state" (option_value state_value state)
          (field "next_moves" (array (items (map move_value moves))) outcome)))

  decode_success :
      (state : Option HandleState) (moves : List Move) (t : T)
      → reads (written state moves (field "result" (write t) end))
        ≡ decode_outcome T read write envelope_version state moves (some (write t)) none
  unfolding decode_envelope state_value
  decode_success none moves t =
      rw (read_items-map read_move move_value read_move_value moves, decode_value) refl
  decode_success (some s) moves t =
      rw
        (
          read_state_value s,
          read_items-map read_move move_value read_move_value moves,
          decode_value,
        )
        refl

  decode_failure :
      (state : Option HandleState) (moves : List Move) (p : ErrorPayload)
      → reads (written state moves (field "error" (encode p) end))
        ≡ decode_outcome T read write envelope_version state moves none (some (encode p))
  unfolding decode_envelope state_value
  decode_failure none moves p =
      rw (read_items-map read_move move_value read_move_value moves, decode_value) refl
  decode_failure (some s) moves p =
      rw
        (
          read_state_value s,
          read_items-map read_move move_value read_move_value moves,
          decode_value,
        )
        refl

  valid_version : (e : Envelope T) → validate_envelope e ≡ ok tt → e.version ≡ envelope_version
  unfolding validate_envelope
  valid_version e valid = ground (arith, valid)

  valid_payload :
      (e : Envelope T) (p : ErrorPayload)
      → e.error ≡ some p
      → validate_envelope e ≡ ok tt
      → validate_payload p ≡ ok tt
  unfolding validate_envelope
  valid_payload e p h valid = ground (arith, valid, h)

  valid_outcome :
      (e : Envelope T) → validate_envelope e ≡ ok tt → is_some e.result ≡ not (is_some e.error)
  unfolding validate_envelope
  valid_outcome e valid = ground (arith, valid)

  abbrev made : ℕ → Option HandleState → List Move → Option T → Option ErrorPayload → Envelope T
  made version state moves result error = record {
    version = version;
    handle_state = state;
    next_moves = moves;
    result = result;
    error = error;
  }

  module _ (back : (t : T) → read (write t) ≡ ok t) where
    read_back :
        (state : Option HandleState) (moves : List Move) (result : Option T)
        (error : Option ErrorPayload)
        → ((t : T) → result ≡ some t → is_null (write t) ≡ false)
        → validate_envelope (made envelope_version state moves result error) ≡ ok tt
        → writes (made envelope_version state moves result error) >>= reads
          ≡ ok (made envelope_version state moves result error)
    unfolding encode_envelope decode_outcome finish_envelope
    read_back state moves none none given valid =
        absurd
          (true≢false (sym (valid_outcome (made envelope_version state moves none none) valid)))
    read_back state moves (some t) (some p) given valid =
        absurd
          (true≢false (valid_outcome (made envelope_version state moves (some t) (some p)) valid))
    read_back state moves (some t) none given valid =
        rw
          (valid, decode_success state moves t, given t refl, back t, or_invalid, valid, or_refused)
          refl
    read_back state moves none (some p) given valid =
        rw
          (
            valid,
            decode_failure state moves p,
            encode_given p,
            decode-encode p
                (valid_payload (made envelope_version state moves none (some p)) p refl valid),
            or_invalid,
            valid,
            or_refused,
          )
          refl

    -- An envelope that passes its validation, and whose result, if it has one, is not written as
    -- null, is written and read back as it was, for a type of results whose reader reads what its
    -- writer writes.
    pub decode-encode_envelope :
        (e : Envelope T)
        → ((t : T) → e.result ≡ some t → is_null (write t) ≡ false)
        → validate_envelope e ≡ ok tt
        → writes e >>= reads ≡ ok e
    decode-encode_envelope e given valid =
        subst
          (λ v.
            validate_envelope (made v e.handle_state e.next_moves e.result e.error) ≡ ok tt
            → writes (made v e.handle_state e.next_moves e.result e.error) >>= reads
              ≡ ok (made v e.handle_state e.next_moves e.result e.error))
          (sym (valid_version e valid))
          (read_back e.handle_state e.next_moves e.result e.error given) valid
