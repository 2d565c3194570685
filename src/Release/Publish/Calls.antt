-- ===== src/Release/Publish/Calls.antt =====
-- The calls that a task of the release tool adds to those made before it.
use pg_mcp.Prelude.{
  String, Bool, true, false, Option, none, some, List, [], ◌∷◌, Result, ok, err, ◌≡◌, refl, inl,
  inr, ◌⊎◌, Option-cases, Result-cases,
}
use pg_mcp.Release.World.{
  World, Output, Call, Desk, Task, run, ◌>>=◌, lift, some_or, fail_when, look, change,
}

-- A list of calls with further calls before it, which all satisfy the predicate.
pub data Extends (Q : Call → Type 0) : List Call → List Call → Type 0 where
  same_calls : (cs : List Call) → Extends Q cs cs
  one_more : (c : Call) (cs ds : List Call) → Q c → Extends Q cs ds → Extends Q cs (c ∷ ds)

Extends-trans :
    (Q : Call → Type 0) (cs ds es : List Call) → Extends Q cs ds → Extends Q ds es → Extends Q cs es
Extends-trans Q cs ds _ f (same_calls _) = f
Extends-trans Q cs ds _ f (one_more c _ es q g) = one_more c cs es q (Extends-trans Q cs ds es f g)

-- One of the calls satisfies the predicate.
abbrev pub Has : (Call → Type 0) → List Call → Type 0
Has P [] = ⊥
Has P (c ∷ cs) = P c ⊎ Has P cs

pub Has-Extends : (P Q : Call → Type 0) (cs ds : List Call) → Extends Q cs ds → Has P cs → Has P ds
Has-Extends P Q cs _ (same_calls _) h = h
Has-Extends P Q cs _ (one_more c _ ds q f) h = inr (Has-Extends P Q cs ds f h)

-- A call that no added one can be was there before.
pub Has-before :
    (P Q : Call → Type 0)
    → ((c : Call) → Q c → P c → ⊥)
    → (cs ds : List Call) → Extends Q cs ds
    → Has P ds
    → Has P cs
Has-before P Q no_call cs _ (same_calls _) h = h
Has-before P Q no_call cs _ (one_more c _ ds q f) (inl p) = absurd (no_call c q p)
Has-before P Q no_call cs _ (one_more c _ ds q f) (inr h) = Has-before P Q no_call cs ds f h

module _ {w : World} (Q : Call → Type 0) where
  -- The task adds only calls that satisfy the predicate.
  abbrev pub Only {ℓ} : {A : Type ℓ} → Task w A → Type 0
  Only m = (d : Desk w) → Extends Q d.calls (m d).1.calls

  pub Only-run :
      (program : String) (args : List String)
      → ((o : Option Output) → Q (record { program = program; args = args; output = o }))
      → Only (run w program args)
  unfolding run
  Only-run program args q d = elim (Option-cases (w.exec program args d.outside).0) [
    | inl e ↦
        rw (e, run) (one_more _ _ _ (q (w.exec program args d.outside).0) (same_calls d.calls))
    | inr (o, e) ↦
        rw (e, run) (one_more _ _ _ (q (w.exec program args d.outside).0) (same_calls d.calls))
  ]

  pub Only-bind {ℓ κ} :
      {A : Type ℓ} {B : Type κ} (m : Task w A) (f : A → Task w B)
      → Only m
      → ((a : A) → Only (f a))
      → Only (m >>= f)
  Only-bind m f p q d = elim (Result-cases (m d).0) [
    | inl (a, e) ↦
        rw (e, ◌>>=◌)
          (Extends-trans Q d.calls (m d).1.calls (f a (m d).1).1.calls (p d) (q a (m d).1))
    | inr (x, e) ↦ rw (e, ◌>>=◌) (p d)
  ]

  pub Only-lift {ℓ} : {A : Type ℓ} (r : Result A String) → Only (lift {A = A} r)
  Only-lift r d = same_calls d.calls

  pub Only-some_or {ℓ} : {A : Type ℓ} (o : Option A) (e : String) → Only (some_or o e)
  Only-some_or none e d = same_calls d.calls
  Only-some_or (some a) e d = same_calls d.calls

  pub Only-fail_when : (x : Bool) (e : String) → Only (fail_when x e)
  Only-fail_when true e d = same_calls d.calls
  Only-fail_when false e d = same_calls d.calls

  pub Only-look {ℓ} : {A : Type ℓ} (f : w.State → A) → Only (look f)
  Only-look f d = same_calls d.calls

  pub Only-change {ℓ} : {A : Type ℓ} (f : w.State → A × w.State) → Only (change f)
  Only-change f d = same_calls d.calls

module _ {ℓ κ} {w : World} {A : Type ℓ} {B : Type κ} (m : Task w A) (f : A → Task w B)
    (d : Desk w) where
  -- Where a chain of two tasks ends: with the second, or where the first failed.
  pub bind_ok : (a : A) → (m d).0 ≡ ok a → ((m >>= f) d).1 ≡ (f a (m d).1).1
  bind_ok a e = rw (e, ◌>>=◌) refl

  pub bind_err : (x : String) → (m d).0 ≡ err x → ((m >>= f) d).1 ≡ (m d).1
  bind_err x e = rw (e, ◌>>=◌) refl
