-- ===== src/Venue/Sessions.antt =====
-- The calls, the waits and the return of `Run` of a connector of internal/venue, over all its
-- connections.
use mathlib.Core.Bool.{true≢false}
use tickstore.Prelude.{
  ◌||◌, All, Bool, Bool-cases, List, [], ap, false, if◌then◌else◌, inl, inr, map, min, not, refl,
  subst, suc, sym, true, zero, ℕ, ◌&&◌, ◌*◌, ◌++◌, ◌<◌, ◌^◌, ◌∙◌, ◌∷◌, ◌≡◌, ◌≤◌,
}
use tickstore.Venue.Reconnect.{Round, double_capped, keep_alive, rand_below}
use tickstore.Venue.Reconnect.Backoff.{
  AllBelow, keep_alive-AllBelow, keep_alive-stops, limits, some_cancelled,
}
use tickstore.Venue.Connection.{
  Beat, ended, ping, pinged, pinger, tick, Call, Feed, Line, Ran, Visit, close, dial, end_visit,
  run, session, set_read_limit, write, write_all,
}

-- A trace of calls in which there is one connection at a time, a failed dial leaves none, a limit is
-- set and a request is written only on a connection that is up, so is a ping whose context is live,
-- and each is closed; `up` tells whether there is one before the trace.
unfoldable pub closes_all : {M : Type 0} → Bool → List (Call M) → Bool
closes_all up [] = not up
closes_all up (dial url comes ∷ cs) = not up && closes_all comes cs
closes_all up (set_read_limit n ∷ cs) = up && closes_all up cs
closes_all up (write m ∷ cs) = up && closes_all up cs
closes_all up (ping live ∷ cs) = (not live || up) && closes_all up cs
closes_all up (close ∷ cs) = up && closes_all false cs

closes_all-append :
    {M : Type 0} (up : Bool) (xs ys : List (Call M))
    → closes_all up xs ≡ true
    → closes_all false ys ≡ true
    → closes_all up (xs ++ ys) ≡ true
unfolding closes_all
closes_all-append false [] ys h k = k
closes_all-append true [] ys h k = absurd (true≢false (sym h))
closes_all-append false (dial url comes ∷ xs) ys h k = closes_all-append comes xs ys h k
closes_all-append true (dial url comes ∷ xs) ys h k = absurd (true≢false (sym h))
closes_all-append false (set_read_limit n ∷ xs) ys h k = absurd (true≢false (sym h))
closes_all-append true (set_read_limit n ∷ xs) ys h k = closes_all-append true xs ys h k
closes_all-append false (write m ∷ xs) ys h k = absurd (true≢false (sym h))
closes_all-append true (write m ∷ xs) ys h k = closes_all-append true xs ys h k
closes_all-append false (ping true ∷ xs) ys h k = absurd (true≢false (sym h))
closes_all-append false (ping false ∷ xs) ys h k = closes_all-append false xs ys h k
closes_all-append true (ping true ∷ xs) ys h k = closes_all-append true xs ys h k
closes_all-append true (ping false ∷ xs) ys h k = closes_all-append true xs ys h k
closes_all-append false (close ∷ xs) ys h k = absurd (true≢false (sym h))
closes_all-append true (close ∷ xs) ys h k = closes_all-append false xs ys h k

-- Before a trace on a connection that is up: the requests, and the pinger.
write_all-then :
    {M : Type 0} (left : ℕ) (ms : List M) (rest : List (Call M))
    → closes_all true rest ≡ true
    → closes_all true ((write_all left ms).0 ++ rest) ≡ true
unfolding closes_all write_all
write_all-then zero [] rest h = h
write_all-then (suc left) [] rest h = h
write_all-then zero (m ∷ ms) rest h = h
write_all-then (suc left) (m ∷ ms) rest h = write_all-then left ms rest h

pinger-then :
    {M : Type 0} (running live : Bool) (beats : List Beat) (rest : List (Call M))
    → closes_all true rest ≡ true
    → closes_all true ((pinger running live beats).0 ++ rest) ≡ true
unfolding closes_all pinger
pinger-then false live beats rest h = h
pinger-then true live [] rest h = h
pinger-then true live (ended ∷ beats) rest h = h
pinger-then true false (tick alive ∷ beats) rest h = pinger-then true false beats rest h
pinger-then true true (tick true ∷ beats) rest h = pinger-then true true beats rest h
pinger-then true true (tick false ∷ beats) rest h = pinger-then true true beats rest h

-- A pinger whose context has ended, on a closed connection.
pinger-late :
    (M : Type 0) (running : Bool) (beats : List Beat)
    → closes_all false (pinger {M = M} running false beats).0 ≡ true
unfolding closes_all pinger
pinger-late M false beats = refl
pinger-late M true [] = refl
pinger-late M true (ended ∷ beats) = refl
pinger-late M true (tick alive ∷ beats) = pinger-late M true beats

pinged-closes :
    (M : Type 0) (started : Bool) (line : Line)
    → closes_all {M = M} true (pinged started line) ≡ true
unfolding pinged
pinged-closes M started line =
    let (reading, left) = pinger {M = M} started true line.reading in
    let (stopped, late) = pinger {M = M} left false line.stopped in
    let last = (pinger {M = M} late false line.closed).0 in
    pinger-then started true line.reading (stopped ++ close ∷ last) (
      pinger-then left false line.stopped (close ∷ last)
        (unfold closes_all in pinger-late M late line.closed))

-- The sleeps, and whether the loop has returned.
abbrev pub waits : {M L : Type 0} → Ran M L → List ℕ × Bool
waits ran = (ran.sleeps, ran.returned)

module _ {M L : Type 0} (f : Feed M L) (low high : ℕ) where
  session-closes : (line : Line) → closes_all false (session f line).0 ≡ true
  unfolding session closes_all
  session-closes line = elim (Bool-cases line.dials) [
    | inl e ↦
        let sent = (write_all line.writes f.requests).1 in
        let end = pinged (f.pings && sent) line in
        rw e (write_all-then line.writes f.requests end (pinged-closes M (f.pings && sent) line))
    | inr e ↦ rw e refl
  ]

  end_visit-closes :
      (panicked cancelled asleep : Bool) (calls : List (Call M)) (log : L) (sleep : ℕ)
      (rest : Ran M L)
      → closes_all false calls ≡ true
      → closes_all false rest.calls ≡ true
      → closes_all false (end_visit panicked cancelled asleep calls log sleep rest).calls ≡ true
  end_visit-closes true cancelled asleep calls log sleep rest h k = h
  end_visit-closes false true asleep calls log sleep rest h k = h
  end_visit-closes false false true calls log sleep rest h k = h
  end_visit-closes false false false calls log sleep rest h k =
      closes_all-append false calls rest.calls h k

  -- However its connections come up, fail and break, `Run` of any connector has one connection at a
  -- time, sets its limit and writes its requests only on a connection that is up, and closes each one
  -- before the next dial and before it ends; and a pinger that it starts writes, as long as its context
  -- is live, only on a connection that is up.
  pub run-closes :
      (backoff : ℕ) (vs : List Visit) → closes_all false (run f low high backoff vs).calls ≡ true
  unfolding run
  run-closes backoff [] = unfold closes_all in refl
  run-closes backoff (v ∷ vs) =
      let (calls, log) = session f v.line in
      let current = if f.got_data log then low else backoff in
      end_visit-closes (f.panics log) v.cancelled v.cancelled_asleep calls log
        (rand_below current v.draw) (run f low high (double_capped high current) vs)
        (session-closes v.line) (run-closes (double_capped high current) vs)

  -- The round of the bare loop that a visit makes.
  abbrev pub round_of : Visit → Round
  round_of v = record {
    got_data = f.got_data (session f v.line).1;
    cancelled = v.cancelled;
    draw = v.draw;
    cancelled_asleep = v.cancelled_asleep;
  }

  -- A session that did not panic.
  abbrev pub IsCalm : L → Type 0
  IsCalm log = f.panics log ≡ false

  -- `Run`, while none of its sessions panics, waits and returns as the bare loop does that is told
  -- which of its sessions receive data.
  run-keep_alive :
      (backoff : ℕ) (vs : List Visit)
      → All IsCalm (run f low high backoff vs).logs
      → waits (run f low high backoff vs) ≡ keep_alive low high backoff (map round_of vs)
  unfolding run keep_alive
  run-keep_alive backoff [] calm = refl
  run-keep_alive backoff (v ∷ vs) calm =
      let (calls, log) = session f v.line in
      let current = if f.got_data log then low else backoff in
      cut (f.panics log) v.cancelled v.cancelled_asleep calls log (rand_below current v.draw)
        (run f low high (double_capped high current) vs)
        (keep_alive low high (double_capped high current) (map round_of vs)) refl calm
        (run-keep_alive (double_capped high current) vs)
    where
      cut :
          (panicked now asleep : Bool) (calls : List (Call M)) (log : L) (sleep : ℕ)
          (rest : Ran M L) (bare : List ℕ × Bool)
          → f.panics log ≡ panicked
          → All IsCalm (end_visit panicked now asleep calls log sleep rest).logs
          → (All IsCalm rest.logs → waits rest ≡ bare)
          → waits (end_visit panicked now asleep calls log sleep rest) ≡ (
              if now
              then ([], true)
              else if asleep
              then (sleep ∷ [], true)
              else (sleep ∷ bare.0, bare.1))
      cut true now asleep calls log sleep rest bare e calm k = absurd (true≢false (sym e ∙ calm.0))
      cut false true asleep calls log sleep rest bare e calm k = refl
      cut false false true calls log sleep rest bare e calm k = refl
      cut false false false calls log sleep rest bare e calm k =
          ap (λ q. (sleep ∷ q.0, q.1)) (k calm.1)

  -- Where none of its sessions panics: each wait of `Run` is below 2^k times the shortest backoff, and
  -- below the longest one, where k sessions in a row before it received no data; and `Run` returns
  -- where some round sees the context cancelled, and in no other case.
  pub run-backs_off :
      (idle : ℕ) (vs : List Visit)
      → 0 < low
      → low ≤ high
      → All IsCalm (run f low high (min high (low * 2 ^ idle)) vs).logs
      → AllBelow
          (run f low high (min high (low * 2 ^ idle)) vs).sleeps
          (limits low high idle (map round_of vs))
        × ((run f low high (min high (low * 2 ^ idle)) vs).returned
            ≡ some_cancelled (map round_of vs))
  run-backs_off idle vs h k calm =
      let e = run-keep_alive (min high (low * 2 ^ idle)) vs calm in
      (
        subst (λ q. AllBelow q.0 (limits low high idle (map round_of vs))) (sym e)
            (keep_alive-AllBelow low high idle (map round_of vs) h k),
        ap (λ q. q.1) e ∙ keep_alive-stops low high (min high (low * 2 ^ idle)) (map round_of vs),
      )
