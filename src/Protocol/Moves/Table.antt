-- ===== src/Protocol/Moves/Table.antt =====
-- The move table of DESIGN.md ("Move priority") against the code of protocol.rs.
use pg_mcp.Prelude.{
  String, true, false, some, List, [], ◌∷◌, map, All, ok, err, ◌≡◌, ◌⊎◌, inl, inr, ◌≢◌, refl, arith,
  Result-cases,
}
use pg_mcp.Protocol.Status.{
  HandleState, IsConsistent, validate_state, validate_state_sound, validate_state_error, good, bad,
  closed, unknown, active, idle, in_error, in_transaction, inconsistent_state,
}
use pg_mcp.Protocol.Moves.{
  Move, validate_move, handle_argument, moves_for_state, next_moves, close_refusal_moves,
}

-- A move that `Move::validate` accepts and that names the handle.
abbrev pub IsMoveOf : String → Move → Type 0
IsMoveOf handle m = (validate_move m ≡ ok tt) × (handle_argument m ≡ some handle)

-- Every suggested move, also after a refused close, passes `Move::validate` and carries the
-- handle of the state that it was computed from.
pub moves-IsMoveOf :
    (s : HandleState)
    → All (IsMoveOf s.handle) (next_moves s) × All (IsMoveOf s.handle) (close_refusal_moves s)
unfolding next_moves close_refusal_moves validate_move handle_argument validate_state
moves-IsMoveOf s = ground arith

abbrev pub tools : List Move → List String
tools = map (λ m. m.tool)

-- One line of the table for each situation, in the order of the table's priority.
pub record Follows (s : HandleState) (moves refused : List String) : Type 0 where
  pub at_closed : s.connection_status ≡ closed → (moves ≡ []) × (refused ≡ [])
  pub at_broken :
      (s.connection_status ≡ bad)
        ⊎ ((s.connection_status ≡ good) × (s.transaction_status ≡ unknown))
      → (moves ≡ "close_database" ∷ []) × (refused ≡ "close_database" ∷ [])
  pub at_busy :
      s.connection_status ≡ good
      → (s.transaction_status ≡ active) ⊎ ((s.busy ≡ true) × (s.transaction_status ≢ unknown))
      → (moves ≡ []) × (refused ≡ [])
  pub at_in_error :
      s.connection_status ≡ good
      → s.busy ≡ false
      → s.transaction_status ≡ in_error
      → (moves ≡ "rollback" ∷ []) × (refused ≡ "rollback" ∷ [])
  pub at_in_transaction :
      s.connection_status ≡ good
      → s.busy ≡ false
      → s.transaction_status ≡ in_transaction
      → (moves ≡ "query" ∷ "commit" ∷ "rollback" ∷ []) × (refused ≡ "commit" ∷ "rollback" ∷ [])
  pub at_unobserved :
      s.connection_status ≡ good
      → s.busy ≡ false
      → s.transaction_status ≡ idle
      → s.schema_observed ≡ false
      → moves ≡ "get_schema" ∷ "close_database" ∷ []
  pub at_observed :
      s.connection_status ≡ good
      → s.busy ≡ false
      → s.transaction_status ≡ idle
      → s.schema_observed ≡ true
      → moves ≡ "open_read" ∷ "open_write" ∷ "get_schema" ∷ "close_database" ∷ []

-- For a consistent state `next_moves` and `close_refusal_moves` suggest exactly the tools of the
-- design's table, in its order: none when closed or busy, a local close when broken, rollback
-- after an error, and by transaction status and schema observation otherwise.
pub moves-Follows :
    (s : HandleState)
    → IsConsistent s
    → Follows s (tools (next_moves s)) (tools (close_refusal_moves s))
unfolding next_moves close_refusal_moves validate_state
moves-Follows s v = ground arith

-- An inconsistent state yields the validation error and no moves at all.
moves_for_state_inconsistent :
    (s : HandleState)
    → ¬ IsConsistent s
    → (moves_for_state s false ≡ err inconsistent_state) × (next_moves s ≡ [])
unfolding next_moves
moves_for_state_inconsistent s h = elim (Result-cases (validate_state s)) [
  | inl (tt, e) ↦ absurd (h (validate_state_sound s e))
  | inr (e, q) ↦ rw (q, validate_state_error s q) (refl, refl)
]
