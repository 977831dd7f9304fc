-- ===== src/Queue/Replies.antt =====
-- Lemmas about the replies to a batch of messages in internal/queue/queue.go.
use mathlib.Core.List.{perm_middle, Perm}
use mathlib.Core.List.Perm
use tickstore.Prelude.{
  Bool, Bytes, List, Option, Option-cases, [], ap, append-nil, false, if◌then◌else◌, inl, inr, none,
  refl, some, true, ◌++◌, ◌∷◌, ◌≡◌,
}
use tickstore.Queue.{Reply, ack, consume_round, nak, reply_all, rows_of, sort_messages}

module _ {ℓ} {A : Type ℓ} (decode : Bytes → Option A) where
  -- The rows of the messages that decode.
  unfoldable pub decoded : List Bytes → List A
  decoded [] = []
  decoded (m ∷ ms) = elim (decode m) [ none ↦ decoded ms | some v ↦ v ∷ decoded ms ]

  -- The reply due to each message: `r`, and an ack where it does not decode.
  unfoldable pub due : Reply → List Bytes → List (Bytes × Reply)
  due r [] = []
  due r (m ∷ ms) = (m, elim (decode m) [ none ↦ ack | some v ↦ r ]) ∷ due r ms

  pub sort_messages-due :
      (r : Reply) (ms : List Bytes)
      → Perm
          ((sort_messages decode ms).1 ++ reply_all decode r (sort_messages decode ms).0)
          (due r ms)
  unfolding sort_messages due
  sort_messages-due r [] = Perm.refl _
  sort_messages-due r (m ∷ ms) = elim (Option-cases (decode m)) [
    | inl e ↦ rw (sort_messages, due, e) (Perm.cons (m, ack) (sort_messages-due r ms))
    | inr (v, e) ↦
        rw (sort_messages, due, e)
          (Perm.trans
            (perm_middle (sort_messages decode ms).1
              (reply_all decode r (sort_messages decode ms).0))
            (Perm.cons (m, r) (sort_messages-due r ms)))
  ]

  pub sort_messages-decoded :
      (ms : List Bytes) → rows_of decode (sort_messages decode ms).0 ≡ decoded ms
  unfolding sort_messages decoded
  sort_messages-decoded [] = refl
  sort_messages-decoded (m ∷ ms) = elim (Option-cases (decode m)) [
    | inl e ↦ rw (sort_messages, rows_of, decoded, e) (sort_messages-decoded ms)
    | inr (v, e) ↦ rw (sort_messages, rows_of, decoded, e) (ap (◌∷◌ v) (sort_messages-decoded ms))
  ]

  -- The reply of a batch whose insert succeeds, or does not.
  abbrev pub reply_of : Bool → Reply
  reply_of true = ack
  reply_of false = nak

  -- Every message of a batch gets exactly one reply: an ack where it does not decode or where its row
  -- was inserted, else a nak; and what is inserted is all rows that decode, in the order of the batch.
  pub consume_round-due :
      (ms : List Bytes) (insert_ok : Bool)
      → Perm (consume_round decode ms insert_ok).0 (due (reply_of insert_ok) ms)
        × ((consume_round decode ms insert_ok).1 ≡ (if insert_ok then decoded ms else []))
  unfolding consume_round
  consume_round-due ms insert_ok = cases (sort_messages decode ms).0 insert_ok refl
    where
      cases :
          (good : List (Bytes × A)) (insert_ok : Bool)
          → (sort_messages decode ms).0 ≡ good
          → Perm (consume_round decode ms insert_ok).0 (due (reply_of insert_ok) ms)
            × ((consume_round decode ms insert_ok).1 ≡ (if insert_ok then decoded ms else []))
      cases [] true e =
          rw (consume_round, e)
            (
              rw (e, append-nil (sort_messages decode ms).1) at (sort_messages-due ack ms),
              rw e at (sort_messages-decoded ms),
            )
      cases [] false e =
          rw (consume_round, e)
            (rw (e, append-nil (sort_messages decode ms).1) at (sort_messages-due nak ms), refl)
      cases (g ∷ gs) true e =
          rw (consume_round, e)
            (rw e at (sort_messages-due ack ms), rw e at (sort_messages-decoded ms))
      cases (g ∷ gs) false e = rw (consume_round, e) (rw e at (sort_messages-due nak ms), refl)
