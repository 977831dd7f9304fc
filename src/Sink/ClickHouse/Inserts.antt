-- ===== src/Sink/ClickHouse/Inserts.antt =====
-- The calls of the `Insert` methods of internal/sink/clickhouse.go.
use tickstore.Prelude.{
  All, Bool, Bool-cases, List, [], ap, err_not_ok, false, inl, inr, ok, refl, true, ◌++◌, ◌∷◌, ◌≡◌,
}
use tickstore.Sink.ClickHouse.{BatchCall, append, append_all, insert_rows, send}

module _ {A C : Type 0} (columns : A → C) where
  -- The calls that append all rows.
  unfoldable pub appended : List A → List (BatchCall C)
  appended [] = []
  appended (r ∷ rs) = append (columns r) ∷ appended rs

  -- The driver takes the columns of a row.
  abbrev pub IsTaken : (C → Bool) → A → Type 0
  IsTaken appends r = appends (columns r) ≡ true

  append_all-sent :
      (appends : C → Bool) (sends : Bool) (rs : List A)
      → (append_all columns appends sends rs).1 ≡ ok tt
      → All (IsTaken appends) rs
        × ((append_all columns appends sends rs).0 ≡ appended rs ++ send ∷ [])
        × (sends ≡ true)
  unfolding append_all appended
  append_all-sent appends true [] h = (tt, refl, refl)
  append_all-sent appends false [] h = absurd (err_not_ok h)
  append_all-sent appends sends (r ∷ rs) h = elim (Bool-cases (appends (columns r))) [
    | inl e ↦
        let (taken, calls, sent) = append_all-sent appends sends rs (rw e at h) in
        ((e, taken), rw e (ap (◌∷◌ (append (columns r))) calls), sent)
    | inr e ↦ absurd (err_not_ok (rw e at h))
  ]

  -- Where an `Insert` returns no error: the driver prepared a batch and took every row's columns; the
  -- calls are one append of each row, in order, and then one send of the batch; and the database took it.
  pub insert_rows-sent :
      (appends : C → Bool) (sends prepares : Bool) (rs : List A)
      → (insert_rows columns appends sends prepares rs).1 ≡ ok tt
      → (prepares ≡ true)
        × All (IsTaken appends) rs
        × ((insert_rows columns appends sends prepares rs).0 ≡ appended rs ++ send ∷ [])
        × (sends ≡ true)
  unfolding insert_rows
  insert_rows-sent appends sends false rs h = absurd (err_not_ok h)
  insert_rows-sent appends sends true rs h =
      let (taken, calls, sent) = append_all-sent appends sends rs h in (refl, taken, calls, sent)
