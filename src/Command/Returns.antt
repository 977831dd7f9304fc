-- ===== src/Command/Returns.antt =====
-- Rules for the steps of a start in cmd/tickstore/main.go.
use tickstore.Prelude.{
  All, All-append, Bool, Option, false, none, refl, some, some_inj, subst, true, ◌≡◌,
}
use tickstore.Command.{
  Call, Startup, call, exit, exit_unless, or_exit, pure, run_books, run_trades, when, ◌>>=◌, ◌>>◌,
}

-- A call that runs no connector.
abbrev pub IsStart : Call → Type 0
IsStart (run_trades h r) = ⊥
IsStart (run_books r) = ⊥
IsStart c = Unit

-- Steps of the start run no connector, and a value that they return satisfies `P`.
pub record Returns {A : Type 0} (P : A → Type 0) (m : Startup A) : Type 0 where
  pub starts : All IsStart m.0
  pub value : (a : A) → m.1 ≡ some a → P a

pub Returns-bind :
    {A B : Type 0} (P : A → Type 0) (Q : B → Type 0) (m : Startup A) (f : A → Startup B)
    → Returns P m
    → ((a : A) → P a → Returns Q (f a))
    → Returns Q (m >>= f)
Returns-bind P Q (calls, none) f h k = record { starts = h.starts; value = λ b e. cc }
Returns-bind P Q (calls, some a) f h k =
    let rest = k a (h.value a refl) in
    record { starts = All-append IsStart calls (f a).0 h.starts rest.starts; value = rest.value }

pub Returns-pure : {A : Type 0} (P : A → Type 0) (a : A) → P a → Returns P (pure a)
Returns-pure P a h = record { starts = tt; value = λ b e. subst P (some_inj e) h }

-- Where a step returns nothing that is of interest.
abbrev pub Starts : Startup (Unit {0}) → Type 0
Starts = Returns (λ _. Unit {0})

pub Returns-call : (c : Call) → IsStart c → Starts (call c)
Returns-call c h = record { starts = (h, tt); value = λ a e. tt }

pub Returns-exit : {A : Type 0} (P : A → Type 0) → Returns P exit
Returns-exit P = record { starts = tt; value = λ a e. cc }

pub Returns-or_exit : {A : Type 0} (o : Option A) → Returns (λ a. o ≡ some a) (or_exit o)
Returns-or_exit none = Returns-exit (λ a. none ≡ some a)
Returns-or_exit (some a) = record { starts = tt; value = λ b e. e }

pub Returns-exit_unless : (b : Bool) → Starts (exit_unless b)
Returns-exit_unless true = Returns-pure (λ _. Unit {0}) tt tt
Returns-exit_unless false = Returns-exit (λ _. Unit {0})

pub Returns-when : (b : Bool) (m : Startup (Unit {0})) → Starts m → Starts (when b m)
Returns-when true m h = h
Returns-when false m h = Returns-pure (λ _. Unit {0}) tt tt

pub Returns-then :
    {B : Type 0} (Q : B → Type 0) (m : Startup (Unit {0})) (k : Startup B)
    → Starts m
    → Returns Q k
    → Returns Q (m >> k)
Returns-then Q m k h next = Returns-bind (λ _. Unit {0}) Q m (λ _. k) h (λ _ _. next)
