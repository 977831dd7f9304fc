-- ===== src/Venue/Connection.antt =====
-- The connection of each connector (kraken.go, okx.go and coinbase.go of internal/venue, and book.go
-- beside each): it dials, subscribes and reads until the connection breaks, and is kept alive by the
-- loop of internal/venue/reconnect.go, which coinbase has its own copy of.
use tickstore.Prelude.{
  Bool, Bytes, List, [], false, if◌then◌else◌, suc, true, zero, ℕ, ◌&&◌, ◌++◌, ◌∷◌,
}
use tickstore.Norm.{Time}
use tickstore.Venue.Reconnect.{double_capped, rand_below}

-- The calls of the websocket library. A dial comes up or not. `ping` is a write of the pinger, with
-- whether its context is live when it is made.
pub data Call (M : Type 0) : Type 0 where
  dial : Bytes → Bool → Call M
  set_read_limit : ℕ → Call M
  write : M → Call M
  ping : Bool → Call M
  close : Call M

-- What the pinger's `select` takes: a tick, and whether the context of `Run` is live then, or the end
-- of its own context. Where both are ready it may take either.
pub data Beat : Type 0 where
  tick : Bool → Beat
  ended : Beat

-- What a connection does: whether it comes up, how many writes succeed before one fails, and the
-- frames, with their times, that arrive before a read fails; and what its pinger takes while the
-- session reads, between `stopPing` and `Close`, and after `Close`, since nobody waits for it.
pub record Line : Type 0 where
  pub dials : Bool
  pub writes : ℕ
  pub frames : List (Bytes × Time)
  pub reading : List Beat
  pub stopped : List Beat
  pub closed : List Beat

-- What tells the connectors apart: where they dial, the subscriptions that they send, whether a
-- session starts a pinger (OKX), what the read loop makes of the frames, what a session without a
-- frame leaves, whether a session received data, and whether it ended in a panic.
pub record Feed (M L : Type 0) : Type 0 where
  pub url : Bytes
  pub read_limit : ℕ
  pub requests : List M
  pub pings : Bool
  pub read : List (Bytes × Time) → L
  pub idle : L
  pub got_data : L → Bool
  pub panics : L → Bool

-- The writes that were tried, and whether all succeeded.
unfoldable pub write_all : {M : Type 0} → ℕ → List M → List (Call M) × Bool
write_all left [] = ([], true)
write_all zero (m ∷ ms) = (write m ∷ [], false)
write_all (suc left) (m ∷ ms) = let (calls, sent) = write_all left ms in (write m ∷ calls, sent)

-- The pinger over what it takes, where it is `running` and its own context `live`: its writes, and
-- whether it is running behind them. A failed write is ignored.
unfoldable pub pinger : {M : Type 0} → (running live : Bool) → List Beat → List (Call M) × Bool
pinger false live beats = ([], false)
pinger true live [] = ([], true)
pinger true live (ended ∷ beats) = ([], false)
pinger true live (tick alive ∷ beats) =
    let (calls, running) = pinger true live beats in (ping (live && alive) ∷ calls, running)

-- The end of a session that is subscribed: `stopPing` ends the pinger's context, and then `Close` is
-- deferred. What the pinger still writes on the closed connection is listed behind `close`.
unfoldable pub pinged : {M : Type 0} → Bool → Line → List (Call M)
unfolding pinger
pinged started line =
    let (reading, left) = pinger started true line.reading in
    let (stopped, late) = pinger left false line.stopped in
    reading ++ (stopped ++ close ∷ (pinger late false line.closed).0)

-- A session: its calls, and what it leaves.
unfoldable pub session : {M L : Type 0} → Feed M L → Line → List (Call M) × L
unfolding write_all pinged
session f line =
    let (writes, sent) = write_all line.writes f.requests in
    if line.dials
    then (
      dial f.url true ∷ set_read_limit f.read_limit ∷ writes ++ pinged (f.pings && sent) line,
      if sent then f.read line.frames else f.idle,
    )
    else (dial f.url false ∷ [], f.idle)

-- A round of `Run`: the connection that it gets, whether the context is cancelled when the session
-- ends, the random number drawn, and whether the context is cancelled in the wait.
pub record Visit : Type 0 where
  pub line : Line
  pub cancelled : Bool
  pub draw : ℕ
  pub cancelled_asleep : Bool

pub record Ran (M L : Type 0) : Type 0 where
  pub calls : List (Call M)
  pub logs : List L
  pub sleeps : List ℕ
  pub returned : Bool

-- The end of a round: with a panic or a cancellation it is the last one.
abbrev pub end_visit :
    {M L : Type 0} → (panicked cancelled asleep : Bool) → List (Call M) → L → ℕ → Ran M L → Ran M L
end_visit true cancelled asleep calls log sleep rest = record {
  calls = calls;
  logs = log ∷ [];
  sleeps = [];
  returned = false;
}
end_visit false true asleep calls log sleep rest = record {
  calls = calls;
  logs = log ∷ [];
  sleeps = [];
  returned = true;
}
end_visit false false true calls log sleep rest = record {
  calls = calls;
  logs = log ∷ [];
  sleeps = sleep ∷ [];
  returned = true;
}
end_visit false false false calls log sleep rest = record {
  calls = calls ++ rest.calls;
  logs = log ∷ rest.logs;
  sleeps = sleep ∷ rest.sleeps;
  returned = rest.returned;
}

-- `Run`, over the connections that it gets, with the shortest, the longest and the current backoff.
unfoldable pub run : {M L : Type 0} → Feed M L → (low high backoff : ℕ) → List Visit → Ran M L
unfolding session double_capped
run f low high backoff [] = record { calls = []; logs = []; sleeps = []; returned = false }
run f low high backoff (v ∷ vs) =
    let (calls, log) = session f v.line in
    let current = if f.got_data log then low else backoff in
    let rest = run f low high (double_capped high current) vs in
    end_visit (f.panics log) v.cancelled v.cancelled_asleep calls log (rand_below current v.draw)
      rest
