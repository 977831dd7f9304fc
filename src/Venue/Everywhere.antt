-- ===== src/Venue/Everywhere.antt =====
-- Lemmas about all sessions that `Run` of a connector of internal/venue goes through.
use tickstore.Prelude.{
  All, Bool, Bool-cases, List, [], false, if◌then◌else◌, inl, inr, true, ℕ, ◌∷◌,
}
use tickstore.Venue.Reconnect.{double_capped, rand_below}
use tickstore.Venue.Connection.{Call, Feed, Line, Ran, Visit, end_visit, run, session, write_all}

-- What holds before the first frame, and behind the frames of each visit, holds of all sessions of
-- `Run`.
module _ {M L : Type 0} (P : L → Type 0) (f : Feed M L) (low high : ℕ) (started : P f.idle) where
  session-All : (line : Line) → P (f.read line.frames) → P (session f line).1
  unfolding session
  session-All line reads = elim (Bool-cases line.dials) [
    | inl e ↦ elim (Bool-cases (write_all line.writes f.requests).1) [
      | inl g ↦ rw (e, g) reads
      | inr g ↦ rw (e, g) started
    ]
    | inr e ↦ rw e started
  ]

  end_visit-All :
      (panicked cancelled asleep : Bool) (calls : List (Call M)) (log : L) (sleep : ℕ)
      (rest : Ran M L)
      → P log
      → All P rest.logs
      → All P (end_visit panicked cancelled asleep calls log sleep rest).logs
  end_visit-All true cancelled asleep calls log sleep rest h k = (h, tt)
  end_visit-All false true asleep calls log sleep rest h k = (h, tt)
  end_visit-All false false true calls log sleep rest h k = (h, tt)
  end_visit-All false false false calls log sleep rest h k = (h, k)

  pub run-All :
      (backoff : ℕ) (vs : List Visit)
      → All (λ v. P (f.read v.line.frames)) vs
      → All P (run f low high backoff vs).logs
  unfolding run
  run-All backoff [] reads = tt
  run-All backoff (v ∷ vs) reads =
      let (calls, log) = session f v.line in
      let current = if f.got_data log then low else backoff in
      let rest = run f low high (double_capped high current) vs in
      end_visit-All (f.panics log) v.cancelled v.cancelled_asleep calls log
        (rand_below current v.draw) rest (session-All v.line reads.0)
        (run-All (double_capped high current) vs reads.1)

pub All-of {ℓ κ} : {A : Type ℓ} (P : A → Type κ) (xs : List A) → ((x : A) → P x) → All P xs
All-of P [] h = tt
All-of P (x ∷ xs) h = (h x, All-of P xs h)

pub All-weaken {ℓ κ μ} :
    {A : Type ℓ} (P : A → Type κ) (Q : A → Type μ) (xs : List A)
    → ((x : A) → P x → Q x)
    → All P xs
    → All Q xs
All-weaken P Q [] f h = tt
All-weaken P Q (x ∷ xs) f h = (f x h.0, All-weaken P Q xs f h.1)
