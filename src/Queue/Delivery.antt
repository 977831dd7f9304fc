-- ===== src/Queue/Delivery.antt =====
-- A whole run of the consumer of internal/queue/queue.go: the rows inserted and the replies.
use mathlib.Core.List.{Perm}
use mathlib.Core.List.Perm
use tickstore.Prelude.{
  Bool, Bytes, List, Option, Option-cases, [], ap, false, if◌then◌else◌, inl, inr, map, refl, subst,
  sym, true, ◌++◌, ◌∙◌, ◌∷◌, ◌≡◌,
}
use tickstore.Queue.{
  Fetch, Reply, Turn, ack, batch, consume_round, consume_turns, fetch_failed, nak, reply_all,
  rows_of, sort_messages,
}
use tickstore.Queue.Replies.{consume_round-due, decoded, due, reply_of}

-- The messages that were acked, in the order of the replies.
unfoldable pub acked : List (Bytes × Reply) → List Bytes
acked [] = []
acked ((m, ack) ∷ rs) = m ∷ acked rs
acked ((m, nak) ∷ rs) = acked rs

-- The messages that the turns fetch, up to the one that sees the cancellation.
unfoldable pub fetched : List Turn → List Bytes
fetched [] = []
fetched (t ∷ ts) =
    let rest = fetched ts in
    if t.cancelled then [] else elim t.fetch [
      | fetch_failed c ↦ if c then [] else rest
      | batch msgs insert_ok ↦ msgs ++ rest
    ]

acked-append : (xs ys : List (Bytes × Reply)) → acked (xs ++ ys) ≡ acked xs ++ acked ys
unfolding acked
acked-append [] ys = refl
acked-append ((m, ack) ∷ rs) ys = ap (◌∷◌ m) (acked-append rs ys)
acked-append ((m, nak) ∷ rs) ys = acked-append rs ys

abbrev pub messages {ℓ} : {R : Type ℓ} → List (Bytes × R) → List Bytes
messages rs = map (λ r. r.0) rs

messages-append {ℓ} :
    {R : Type ℓ} (xs ys : List (Bytes × R)) → messages (xs ++ ys) ≡ messages xs ++ messages ys
messages-append [] ys = refl
messages-append ((m, r) ∷ rs) ys = ap (◌∷◌ m) (messages-append rs ys)

module _ {ℓ} {A : Type ℓ} (decode : Bytes → Option A) where
  decoded-append :
      (xs ys : List Bytes) → decoded decode (xs ++ ys) ≡ decoded decode xs ++ decoded decode ys
  unfolding decoded
  decoded-append [] ys = refl
  decoded-append (m ∷ ms) ys = elim (Option-cases (decode m)) [
    | inl e ↦ rw (decoded, e) (decoded-append ms ys)
    | inr (v, e) ↦ rw (decoded, e) (ap (◌∷◌ v) (decoded-append ms ys))
  ]

  poison-acked : (ms : List Bytes) → decoded decode (acked (sort_messages decode ms).1) ≡ []
  unfolding sort_messages acked decoded
  poison-acked [] = refl
  poison-acked (m ∷ ms) = elim (Option-cases (decode m)) [
    | inl e ↦ rw (sort_messages, e) (rw (acked, decoded, e) (poison-acked ms))
    | inr (v, e) ↦ rw (sort_messages, e) (poison-acked ms)
  ]

  good-acked :
      (ms : List Bytes)
      → decoded decode (acked (reply_all decode ack (sort_messages decode ms).0))
        ≡ rows_of decode (sort_messages decode ms).0
  unfolding sort_messages acked decoded
  good-acked [] = refl
  good-acked (m ∷ ms) = elim (Option-cases (decode m)) [
    | inl e ↦ rw (sort_messages, e) (good-acked ms)
    | inr (v, e) ↦ rw (sort_messages, e) (rw (acked, decoded, e) (ap (◌∷◌ v) (good-acked ms)))
  ]

  nak-acked : (good : List (Bytes × A)) → acked (reply_all decode nak good) ≡ []
  unfolding acked
  nak-acked [] = refl
  nak-acked ((m, v) ∷ good) = nak-acked good

  -- A batch: the rows inserted are those of the messages acked.
  consume_round-acked :
      (ms : List Bytes) (insert_ok : Bool)
      → (consume_round decode ms insert_ok).1
        ≡ decoded decode (acked (consume_round decode ms insert_ok).0)
  unfolding consume_round
  consume_round-acked ms insert_ok = cases (sort_messages decode ms).0 insert_ok refl
    where
      poison : List (Bytes × Reply)
      poison = (sort_messages decode ms).1

      split_acked :
          (rs : List (Bytes × Reply)) (rows : List A)
          → decoded decode (acked rs) ≡ rows
          → rows ≡ decoded decode (acked (poison ++ rs))
      split_acked rs rows e =
          rw (acked-append poison rs, decoded-append (acked poison) (acked rs), poison-acked ms)
            (sym e)

      cases :
          (good : List (Bytes × A)) (insert_ok : Bool)
          → (sort_messages decode ms).0 ≡ good
          → (consume_round decode ms insert_ok).1
            ≡ decoded decode (acked (consume_round decode ms insert_ok).0)
      cases [] insert_ok e = rw (consume_round, e) (sym (poison-acked ms))
      cases (g ∷ gs) true e =
          rw (consume_round, e)
            (split_acked (reply_all decode ack (g ∷ gs)) (rows_of decode (g ∷ gs))
              (rw e at (good-acked ms)))
      cases (g ∷ gs) false e =
          rw (consume_round, e)
            (split_acked (reply_all decode nak (g ∷ gs)) []
              (ap (decoded decode) (nak-acked (g ∷ gs)) ∙ unfold decoded in refl))

  due-messages : (r : Reply) (ms : List Bytes) → messages (due decode r ms) ≡ ms
  unfolding due
  due-messages r [] = refl
  due-messages r (m ∷ ms) = ap (◌∷◌ m) (due-messages r ms)

  consume_round-messages :
      (ms : List Bytes) (insert_ok : Bool)
      → Perm (messages (consume_round decode ms insert_ok).0) ms
  consume_round-messages ms insert_ok =
      subst (Perm (messages (consume_round decode ms insert_ok).0))
        (due-messages (reply_of decode insert_ok) ms)
        (Perm.map (λ r. r.0) (consume_round-due decode ms insert_ok).0)

  abbrev Answered : List Turn → Type ℓ
  Answered ts =
      ((consume_turns decode ts).rows ≡ decoded decode (acked (consume_turns decode ts).replies))
      × Perm (messages (consume_turns decode ts).replies) (fetched ts)

  turn-Answered :
      (cancelled : Bool) (fetch : Fetch) (ts : List Turn)
      → Answered ts
      → Answered (record { cancelled = cancelled; fetch = fetch } ∷ ts)
  unfolding consume_turns fetched acked decoded
  turn-Answered true fetch ts h = (refl, Perm.refl [])
  turn-Answered false (fetch_failed true) ts h = (refl, Perm.refl [])
  turn-Answered false (fetch_failed false) ts h = h
  turn-Answered false (batch ms insert_ok) ts (rows, replied) =
      let now = consume_round decode ms insert_ok in
      let later = (consume_turns decode ts).replies in
      (
        rw
            (
              acked-append now.0 later,
              decoded-append (acked now.0) (acked later),
              ← consume_round-acked ms insert_ok,
              ← rows,
            )
            refl,
        rw (messages-append now.0 later)
            (Perm.append (consume_round-messages ms insert_ok) replied),
      )

  -- Over a whole run of the consumer: the rows that are inserted are those of the messages that are
  -- acked, in order, so that a message whose row was not inserted is acked only if it does not decode;
  -- and the messages replied to are those fetched, each once.
  pub consume_turns-acked :
      (ts : List Turn)
      → ((consume_turns decode ts).rows ≡ decoded decode (acked (consume_turns decode ts).replies))
        × Perm (messages (consume_turns decode ts).replies) (fetched ts)
  consume_turns-acked [] = unfold consume_turns fetched acked decoded in (refl, Perm.refl [])
  consume_turns-acked (t ∷ ts) = turn-Answered t.cancelled t.fetch ts (consume_turns-acked ts)
