-- ===== src/Sink/Stats/Tables.antt =====
-- The entries of `TableStats` in internal/sink/stats.go.
use tickstore.Prelude.{
  Assoc, Bool, Bytes, List, Option, [], ap, bytes_eq, err_not_ok, false, if◌then◌else◌, insert,
  lookup, lookup-insert, map, nat_eq, int_eq, none, ok, ok_inj, refl, some, sym, true, >>=-eq-ok,
  ◌==◌, ◌∙◌, ◌∷◌, ◌≡◌, ◌↔◌,
}
use tickstore.Sink.Stats.Scanned.{or_broken-inv}
use tickstore.Sink.Stats.{
  Answer, TableStat, fill_tables, no_answer, or_broken, stat_or_zero, stats_by_name, table_stats,
  tables,
}

abbrev or_else : Option TableStat → Option TableStat → Option TableStat
or_else (some s) other = some s
or_else none other = other

-- The last row of this name.
unfoldable pub last_named : Bytes → List TableStat → Option TableStat
last_named name [] = none
last_named name (s ∷ ss) = or_else (last_named name ss) (if s.name == name then some s else none)

or_else_assoc :
    (a : Option TableStat) (t : Bool) (s : TableStat) (other : Option TableStat)
    → or_else a (if t then some s else other)
      ≡ or_else (or_else a (if t then some s else none)) other
or_else_assoc (some x) t s other = refl
or_else_assoc none true s other = refl
or_else_assoc none false s other = refl

stats_by_name-inv :
    (rs : List (Option TableStat)) (m out : Assoc Bytes TableStat)
    → stats_by_name rs m ≡ ok out
    → (scanned : List TableStat) × (rs ≡ map some scanned)
unfolding stats_by_name
stats_by_name-inv [] m out h = ([], refl)
stats_by_name-inv (none ∷ rs) m out h = absurd (err_not_ok h)
stats_by_name-inv (some s ∷ rs) m out h =
    let (scanned, same) = stats_by_name-inv rs (insert s.name s m) out h in
    (s ∷ scanned, ap (◌∷◌ (some s)) same)

-- The map at the end of the loop.
stats_by_name_all :
    (scanned : List TableStat) (m : Assoc Bytes TableStat)
    → (out : Assoc Bytes TableStat) × (stats_by_name (map some scanned) m ≡ ok out)
      × ((name : Bytes) → lookup name out ≡ or_else (last_named name scanned) (lookup name m))
unfolding stats_by_name last_named
stats_by_name_all [] m = (m, refl, λ name. refl)
stats_by_name_all (s ∷ ss) m =
    let (out, e, found) = stats_by_name_all ss (insert s.name s m) in
    (
      out,
      e,
      λ name.
          found name
          ∙ ap (or_else (last_named name ss)) (lookup-insert s.name name s m)
          ∙ or_else_assoc (last_named name ss) (s.name == name) s (lookup name m),
    )

unfoldable pub report : List TableStat → List Bytes → List TableStat
report scanned [] = []
report scanned (name ∷ names) = stat_or_zero name (last_named name scanned) ∷ report scanned names

or_else-none : (o : Option TableStat) → or_else o none ≡ o
or_else-none none = refl
or_else-none (some s) = refl

fill_tables-report :
    (scanned : List TableStat) (m : Assoc Bytes TableStat) (names : List Bytes)
    → ((name : Bytes) → lookup name m ≡ last_named name scanned)
    → fill_tables m names ≡ report scanned names
unfolding fill_tables report
fill_tables-report scanned m [] found = refl
fill_tables-report scanned m (name ∷ names) found =
    ap (λ o. stat_or_zero name o ∷ fill_tables m names) (found name)
    ∙ ap (◌∷◌ (stat_or_zero name (last_named name scanned)))
        (fill_tables-report scanned m names found)

table_stats_all :
    (scanned : List TableStat)
    → table_stats (Answer.rows (map some scanned) false) ≡ ok (report scanned tables)
unfolding table_stats lookup
table_stats_all scanned =
    let (m, e, found) = stats_by_name_all scanned [] in
    rw e (
      ap ok (
        fill_tables-report scanned m tables
          (λ name. found name ∙ or_else-none (last_named name scanned))))

-- `TableStats` returns stats exactly where the query is answered, every row of the answer scans and
-- the connection holds to the end; and then it returns one entry for each table of `tables`, in that
-- order, with the numbers of the last row of that name, or zeros where the answer has none.
pub table_stats_iff :
    (a : Answer TableStat) (out : List TableStat)
    → (table_stats a ≡ ok out) ↔ (
        (scanned : List TableStat) × (a ≡ Answer.rows (map some scanned) false)
        × (out ≡ report scanned tables))
unfolding table_stats
table_stats_iff no_answer out = (
  λ h. absurd (err_not_ok h),
  λ (scanned, e, f). ap table_stats e ∙ table_stats_all scanned ∙ ap ok (sym f),
)
table_stats_iff (Answer.rows rs broken) out = (
  λ h.
      let (m, e, f) =
        >>=-eq-ok (stats_by_name rs []) (λ m. or_broken broken (fill_tables m tables)) h in
      let (scanned, same) = stats_by_name-inv rs [] m e in
      let (whole, g) = or_broken-inv broken (fill_tables m tables) f in
      let read : Answer.rows rs broken ≡ Answer.rows (map some scanned) false =
        ap (λ l. Answer.rows l broken) same ∙ ap (Answer.rows (map some scanned)) whole in
      (scanned, read, ok_inj (sym h ∙ ap table_stats read ∙ table_stats_all scanned)),
  λ (scanned, e, f). ap table_stats e ∙ table_stats_all scanned ∙ ap ok (sym f),
)
