-- ===== src/Venue/Coinbase/Gaps.antt =====
-- Lemmas about the books of a session of internal/venue/coinbase/book.go.
use tickstore.Prelude.{
  bytes_eq, nat_eq, int_eq, AllValues, Bytes, List, Result, [], err, false, if◌then◌else◌, ok, refl,
  subst, sym, true, u64_mod, ℕ, ◌++◌, ◌+◌, ◌∷◌, ◌≡◌, ◌≤◌,
}
use tickstore.Norm.{Time}
use tickstore.Venue.Feed.{Ports}
use tickstore.Venue.Coinbase.Books.{
  BookLog, Level2Decoder, Level2Error, Level2Frame, SeqBook, bad_level2_json, bad_level2_side,
  bad_level2_time, dispatch, level2_rejected, level_price, level_size, missing_level2_product,
  on_frame, on_parsed, parse_level2, session, unexpected_level2_type,
}
use tickstore.Venue.Coinbase.Sequence.{dispatch_all, dispatch_all-gap_free, load}

-- The frames that are dispatched: those that parse, up to one in which the venue refuses.
abbrev with_parsed : Result Level2Error Level2Frame → List Level2Frame → List Level2Frame
with_parsed (ok frame) rest = frame ∷ rest
with_parsed (err level2_rejected) rest = []
with_parsed (err e) rest = rest

module _ (d : Level2Decoder) where
  unfoldable pub frames_of : List (Bytes × Time) → List Level2Frame
  frames_of [] = []
  frames_of (f ∷ fs) = with_parsed (parse_level2 d f.0 f.1) (frames_of fs)

  -- The rows that the frames carry.
  abbrev pub frames_load : List (Bytes × Time) → ℕ
  frames_load fs = load (frames_of fs)

module _ (p : Ports) (d : Level2Decoder) where
  -- What the rest of a session does, from each log in which the venue has not refused.
  abbrev Dispatches : List (Bytes × Time) → Type 0
  Dispatches fs =
      (log : BookLog)
      → log.rejected ≡ false
      → (session p d fs log).books ≡ dispatch_all p log.books (frames_of d fs)

  -- A frame that does not parse.
  mild :
      (log : BookLog) (fs : List (Bytes × Time))
      → log.rejected ≡ false
      → Dispatches fs
      → (if log.rejected
          then record log { parse_errors = log.parse_errors + 1 }
          else session p d fs (record log { parse_errors = log.parse_errors + 1 })).books
        ≡ dispatch_all p log.books (frames_of d fs)
  mild log fs h ih =
      rw h (ih (record log { parse_errors = log.parse_errors + 1; rejected = false }) refl)

  step-Dispatches :
      (r : Result Level2Error Level2Frame) (log : BookLog) (fs : List (Bytes × Time))
      → log.rejected ≡ false
      → Dispatches fs
      → (if (on_parsed p d r log).rejected
          then on_parsed p d r log
          else session p d fs (on_parsed p d r log)).books
        ≡ dispatch_all p log.books (with_parsed r (frames_of d fs))
  unfolding dispatch_all
  step-Dispatches (ok frame) log fs h ih = rw h (
      ih
        (record log {
          books = (dispatch p log.books frame).0;
          effects = log.effects ++ (dispatch p log.books frame).1;
          got_data = true;
          rejected = false;
        })
        refl)
  step-Dispatches (err level2_rejected) log fs h ih = refl
  step-Dispatches (err bad_level2_json) log fs h ih = mild log fs h ih
  step-Dispatches (err unexpected_level2_type) log fs h ih = mild log fs h ih
  step-Dispatches (err missing_level2_product) log fs h ih = mild log fs h ih
  step-Dispatches (err bad_level2_time) log fs h ih = mild log fs h ih
  step-Dispatches (err bad_level2_side) log fs h ih = mild log fs h ih
  step-Dispatches (err (level_price e)) log fs h ih = mild log fs h ih
  step-Dispatches (err (level_size e)) log fs h ih = mild log fs h ih

  session-Dispatches : (fs : List (Bytes × Time)) → Dispatches fs
  unfolding session on_frame frames_of dispatch_all
  session-Dispatches [] log h = refl
  session-Dispatches (f ∷ fs) log h =
      step-Dispatches (parse_level2 d f.0 f.1) (record log { messages = log.messages + 1 }) fs h
        (session-Dispatches fs)

-- A session that has read nothing.
abbrev pub new_log : BookLog
new_log = record {
  books = [];
  effects = [];
  messages = 0;
  parse_errors = 0;
  got_data = false;
  rejected = false;
}

-- Whatever frames a session reads, no book of the session counts a gap, and a synced book stands at
-- the number that the connector gave last.
pub session-gaps :
    (p : Ports) (d : Level2Decoder) (fs : List (Bytes × Time))
    → frames_load d fs + 2 ≤ u64_mod
    → AllValues
        (λ (sb : SeqBook). (sb.book.gaps ≡ 0) × (sb.book.synced ≡ true → sb.book.last_seq ≡ sb.seq))
        (session p d fs new_log).books
session-gaps p d fs fits =
    subst
      (AllValues (λ (sb : SeqBook).
        (sb.book.gaps ≡ 0) × (sb.book.synced ≡ true → sb.book.last_seq ≡ sb.seq)))
      (sym (session-Dispatches p d fs new_log refl)) (dispatch_all-gap_free p (frames_of d fs) fits)
