-- ===== src/Libpq/Session/Connect/Verified.antt =====
-- libpq.rs: what a connection is like when `Connection::connect` hands it over.
use mathlib.Core.Path.{subst}
use pg_mcp.Prelude.{
  ℕ, true, false, Option, none, some, List, Result, ok, err, ◌≡◌, ◌≤◌, refl, arith, eq_iff,
  Option-cases, inl, inr,
}
use pg_mcp.Protocol.Json.Canonical.{Writer}
use pg_mcp.Libpq.{PollControl, AdapterError, ResultSet, ConnectionStatus, TransactionStatus}
use pg_mcp.Libpq.Dsn.{Dsn}
use pg_mcp.Libpq.Session.{Foreign, Run, Session, caught, passed, status}
use pg_mcp.Libpq.Session.Send.{send_and_collect}
use pg_mcp.Libpq.Session.Connect.{
  checked, confirmed_utf8, setup_utf8, verified, established, connect, set_nonblocking,
  connect_loop, kept_if_ok,
}

-- The connection is good and idle, to the database of the DSN, on a server of version 12 or later,
-- with its client encoding UTF8.
pub record IsVerified (f : Foreign) (dsn : Dsn) (s : Session f) : Type 0 where
  pub healthy : (status f s).connection_status ≡ ConnectionStatus.good
  pub settled : (status f s).transaction_status ≡ TransactionStatus.idle
  pub of_database : f.db s.world ≡ some dsn.database
  pub recent : 120000 ≤ f.server_version s.world
  pub encoded : f.parameter_status "client_encoding" s.world ≡ some "UTF8"

module _ (to_vec : Writer) (f : Foreign) (deadline : ℕ) (control : PollControl) where
  -- What a routine leaves, from what holds where it goes on after its first part.
  caught_leaves :
      {A B : Type 0} (o : Option (Result A AdapterError × Session f)) (k : A → Run (Session f) B)
      (P : Session f → Type 0)
      → ((a : A) (s s' : Session f) (b : B) → o ≡ some (ok a, s) → k a s ≡ some (ok b, s') → P s')
      → (s' : Session f) (b : B) → caught o (passed k) ≡ some (ok b, s')
      → P s'
  caught_leaves none k P go s' b h = absurd (ground (arith))
  caught_leaves (some (ok a, s)) k P go s' b h = go a s s' b refl h
  caught_leaves (some (err e, s)) k P go s' b h = absurd (ground (arith))

  checked_answers :
      {A : Type 0} (go : Run (Session f) A) (s s' : Session f) (a : A)
      → checked to_vec f deadline control go s ≡ some (ok a, s')
      → go s ≡ some (ok a, s')
  checked_answers go s s' a h = ground (arith)

  confirmed_encoded :
      (r : ResultSet) (s s' : Session f)
      → confirmed_utf8 to_vec f deadline control r s ≡ some (ok tt, s')
      → f.parameter_status "client_encoding" s'.world ≡ some "UTF8"
  confirmed_encoded r s s' h = elim (Option-cases (f.parameter_status "client_encoding" s.world)) [
    | inl e ↦ absurd (ground (arith, e))
    | inr (value, e) ↦ ground (arith, e, h, eq_iff value "UTF8")
  ]

  verified_facts :
      (dsn : Dsn) (s s' : Session f)
      → f.parameter_status "client_encoding" s.world ≡ some "UTF8"
      → verified to_vec f deadline control dsn s ≡ some (ok tt, s')
      → IsVerified f dsn s'
  unfolding verified
  verified_facts dsn s s' e h = elim (Option-cases (f.db s.world)) [
    | inl d ↦ absurd (ground (arith, d))
    | inr (actual, d) ↦
        let same : s ≡ s' = ground (arith, d) in
        subst (IsVerified f dsn) same (record {
          healthy = ground (arith, d);
          settled = ground (arith, d);
          of_database = ground (arith, d, eq_iff actual dsn.database);
          recent = ground (arith, d);
          encoded = e;
        })
  ]

  setup_encoded :
      (n : ℕ) (s s' : Session f)
      → setup_utf8 to_vec f deadline control n s ≡ some (ok tt, s')
      → f.parameter_status "client_encoding" s'.world ≡ some "UTF8"
  unfolding setup_utf8
  setup_encoded n s s' =
      caught_leaves
        (send_and_collect to_vec f n "SET client_encoding TO 'UTF8'" List.[] false deadline control
          s)
        (confirmed_utf8 to_vec f deadline control)
        (λ t. f.parameter_status "client_encoding" t.world ≡ some "UTF8")
        (λ r t t' b _ h. confirmed_encoded r t t' h) s' tt

  -- The parts of `connect` after its loop.
  abbrev last_part : ℕ → Dsn → Run (Session f) (Unit {0})
  last_part n dsn s =
      caught (setup_utf8 to_vec f deadline control n s)
        (passed (λ _. checked to_vec f deadline control (verified to_vec f deadline control dsn)))

  last_part_facts :
      (n : ℕ) (dsn : Dsn) (s s' : Session f)
      → last_part n dsn s ≡ some (ok tt, s')
      → IsVerified f dsn s'
  last_part_facts n dsn s s' =
      caught_leaves (setup_utf8 to_vec f deadline control n s)
        (λ _. checked to_vec f deadline control (verified to_vec f deadline control dsn))
        (IsVerified f dsn)
        (λ a t t' b before h.
          verified_facts dsn t t' (setup_encoded n s t before)
            (checked_answers (verified to_vec f deadline control dsn) t t' tt h))
        s' tt

  abbrev second_part : ℕ → Dsn → Run (Session f) (Unit {0})
  second_part n dsn s =
      caught (set_nonblocking to_vec f deadline control s) (passed (λ _. last_part n dsn))

  second_part_facts :
      (n : ℕ) (dsn : Dsn) (s s' : Session f)
      → second_part n dsn s ≡ some (ok tt, s')
      → IsVerified f dsn s'
  second_part_facts n dsn s s' =
      caught_leaves (set_nonblocking to_vec f deadline control s) (λ _. last_part n dsn)
        (IsVerified f dsn) (λ a t t' b _ h. last_part_facts n dsn t t' h) s' tt

  established_facts :
      (n : ℕ) (dsn : Dsn) (s s' : Session f)
      → established to_vec f deadline control n dsn s ≡ some (ok tt, s')
      → IsVerified f dsn s'
  unfolding established
  established_facts n dsn s s' =
      caught_leaves (connect_loop to_vec f deadline control n s)
        (λ _. checked to_vec f deadline control (second_part n dsn)) (IsVerified f dsn)
        (λ a t t' b _ h.
          second_part_facts n dsn t t' (checked_answers (second_part n dsn) t t' tt h))
        s' tt

  kept_established :
      (o : Option (Result (Unit {0}) AdapterError × Session f)) (s : Session f)
      → caught o (kept_if_ok to_vec f deadline control) ≡ some (ok tt, s)
      → o ≡ some (ok tt, s)
  kept_established none s h = ground arith
  kept_established (some (ok a, s')) s h = ground (arith, h)
  kept_established (some (err e, s')) s h = absurd (ground (arith, h))

  -- A connection that `connect` hands over is good and idle, belongs to the database that the DSN
  -- names, on a server of version 12 or later, and has the client encoding UTF8.
  pub connect-IsVerified :
      (n : ℕ) (dsn : Dsn) (w : f.World) (s : Session f)
      → connect to_vec f deadline control n dsn w ≡ some (ok tt, s)
      → IsVerified f dsn s
  unfolding connect
  connect-IsVerified n dsn w s h =
      let begun : Session f = record {
        world = (f.connect_start dsn.raw w).1;
        owned = true;
        busy = false;
      } in
      let o = established to_vec f deadline control n dsn begun in
      established_facts n dsn begun s (ground (arith, h, kept_established o s))
