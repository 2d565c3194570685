-- ===== src/Worker/Admission/Queue.antt =====
-- The channel of one worker, as steps of the callers and of the worker.
use pg_mcp.Prelude.{
  ℕ, suc, Bool, true, false, ◌+◌, ◌≤◌, List, [], ◌∷◌, ◌++◌, ◌≡◌, refl, ap, arith, if◌then◌else◌,
}
use pg_mcp.Worker.Registry.{WorkerEntry, Request, Operation, operation, shutdown}
use pg_mcp.Worker.Backend.{RequestContext}
use pg_mcp.Worker.Admission.{try_send, sent, enqueue, give_back}

abbrev pub is_operation : Request → Bool
is_operation (operation op c) = true
is_operation (shutdown c) = false

-- The operations in a queue.
abbrev pub operations : List Request → ℕ
operations [] = 0
operations (operation op c ∷ q) = suc (operations q)
operations (shutdown c ∷ q) = operations q

-- The entry of a worker; whether the worker holds the receiver; whether it is serving an operation
-- that it took.
pub record Line : Type 0 where
  pub entry : WorkerEntry
  pub receiving : Bool
  pub serving : Bool

-- A caller's admission, taken or not, while the entry is in the registry; the `Request::Shutdown`
-- that Core::shutdown sends without counting it; the worker's `blocking_recv` of an operation; the
-- drop of its admission guard after the reply; and the worker's end, after a shutdown request or
-- after an operation, which drops the receiver with what is queued, and gives nothing back.
pub data Step : Line → Line → Type 0 where
  arrives :
      (request : Request) (receiving serving : Bool) (e : WorkerEntry)
      → is_operation request ≡ true
      → Step
          (record { entry = e; receiving = receiving; serving = serving })
          (record {
            entry = (enqueue request receiving e).1;
            receiving = receiving;
            serving = serving;
          })
  asks :
      (c : RequestContext) (receiving serving : Bool) (e e' : WorkerEntry)
      → try_send (shutdown c) receiving e ≡ sent e'
      → Step
          (record { entry = e; receiving = receiving; serving = serving })
          (record { entry = e'; receiving = receiving; serving = serving })
  takes :
      (op : Operation) (c : RequestContext) (rest : List Request) (e : WorkerEntry)
      → e.queue ≡ operation op c ∷ rest
      → Step
          (record { entry = e; receiving = true; serving = false })
          (record { entry = record e { queue = rest }; receiving = true; serving = true })
  releases :
      (e : WorkerEntry)
      → Step
          (record { entry = e; receiving = true; serving = true })
          (record { entry = give_back e; receiving = true; serving = false })
  ends :
      (e : WorkerEntry)
      → Step
          (record { entry = e; receiving = true; serving = false })
          (record { entry = record e { queue = [] }; receiving = false; serving = false })

-- The lines reached from a fresh entry, by any interleaving of steps.
pub data Reachable : Line → Type 0 where
  opened :
      (e : WorkerEntry)
      → e.queue ≡ []
      → e.admitted ≡ 0
      → Reachable (record { entry = e; receiving = true; serving = false })
  next : (l l' : Line) → Reachable l → Step l l' → Reachable l'

-- The operations in a queue and the one that is served.
abbrev pub outstanding : Line → ℕ
outstanding l = operations l.entry.queue + (if l.serving then 1 else 0)

-- The operations that are queued or served are within the count of the admitted ones, which is
-- within the limit; as long as the worker receives, the count is exact.
pub record IsCounted (l : Line) : Type 0 where
  pub counted : l.receiving ≡ true → outstanding l ≡ l.entry.admitted
  pub covered : outstanding l ≤ l.entry.admitted
  pub within : l.entry.admitted ≤ l.entry.config.outstanding_requests

operations-snoc :
    (q : List Request) (x : Request)
    → operations (q ++ (x ∷ [])) ≡ operations q + (if is_operation x then 1 else 0)
operations-snoc [] (operation op c) = refl
operations-snoc [] (shutdown c) = refl
operations-snoc (operation op c ∷ q) x = omega (arith, operations-snoc q x)
operations-snoc (shutdown c ∷ q) x = operations-snoc q x

Step-IsCounted : (l l' : Line) → Step l l' → IsCounted l → IsCounted l'
unfolding enqueue try_send
Step-IsCounted _ _ (arrives request receiving serving e op) inv =
    ground (arith, operations-snoc e.queue request, inv.counted, op)
Step-IsCounted _ _ (asks c receiving serving e e' q) inv =
    ground (arith, operations-snoc e.queue (shutdown c), inv.counted, q)
Step-IsCounted _ _ (takes op c rest e q) inv =
    let taken = ap operations q in ground (arith, inv.counted)
Step-IsCounted _ _ (releases e) inv = ground (arith, inv.counted)
Step-IsCounted _ _ (ends e) inv = ground (arith)

-- In whatever order callers are admitted, Core::shutdown sends its request, and the worker takes,
-- replies and ends: at most `outstanding_requests` are admitted on a handle, the operations that
-- are queued or served are no more than the admitted ones, and exactly as many as long as the worker
-- receives. An operation that is dropped with the queue of a worker that ended stays counted.
pub Reachable-IsCounted : (l : Line) → Reachable l → IsCounted l
Reachable-IsCounted _ (opened e q z) = let empty = ap operations q in ground arith
Reachable-IsCounted _ (next l l' reached step) =
    Step-IsCounted l l' step (Reachable-IsCounted l reached)
