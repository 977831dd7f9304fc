-- ===== src/Sink/ClickHouse/Schema.antt =====
-- The statements that `Migrate` of internal/sink/clickhouse.go sends.
use tickstore.Prelude.{
  All, Bool, Bool-cases, Bytes, List, [], ap, arith, bytes_eq, false, inl, inr, int_eq, nat_beq_iff,
  nat_eq, refl, true, ℕ, ◌++◌, ◌==◌, ◌∙◌, ◌∷◌, ◌≡◌,
}
use tickstore.Prelude.Tests.{nat_eq}
use tickstore.Sink.ClickHouse.{
  add_front, cut_comment, is_blank, join_lines, migrate, run_statements, split, starts_comment,
  strip_line_comments,
}

-- The text has no byte `c`.
abbrev pub Lacks : ℕ → Bytes → Type 0
Lacks c s = All (λ d. (d == c) ≡ false) s

-- The text has no two dashes in a row.
abbrev pub IsBare : Bytes → Type 0
IsBare [] = Unit
IsBare (c ∷ s) = (starts_comment c s ≡ false) × IsBare s

unfoldable pub cut_all : List Bytes → List Bytes
cut_all [] = []
cut_all (line ∷ lines) = cut_comment line ∷ cut_all lines

add_front-Lacks :
    (sep c : ℕ) (pieces : List Bytes)
    → All (Lacks sep) pieces
    → All (Lacks sep) (add_front (c == sep) c pieces)
add_front-Lacks sep c pieces h = elim (Bool-cases (c == sep)) [
  | inl e ↦ rw e (tt, h)
  | inr e ↦ rw e (front pieces e h)
]
  where
    front :
        (xs : List Bytes)
        → (c == sep) ≡ false
        → All (Lacks sep) xs
        → All (Lacks sep) (add_front false c xs)
    front [] e h = ((e, tt), tt)
    front (x ∷ xs) e h = ((e, h.0), h.1)

split-Lacks : (sep : ℕ) (s : Bytes) → All (Lacks sep) (split sep s)
unfolding split
split-Lacks sep [] = (tt, tt)
split-Lacks sep (c ∷ s) = add_front-Lacks sep c (split sep s) (split-Lacks sep s)

split_piece : (sep : ℕ) (s t : Bytes) → Lacks sep s → split sep (s ++ sep ∷ t) ≡ s ∷ split sep t
unfolding split
split_piece sep [] t h = rw ((nat_beq_iff sep sep).1 refl) refl
split_piece sep (c ∷ s) t h = rw (split_piece sep s t h.1, h.0) refl

cut_comment-Lacks : (sep : ℕ) (s : Bytes) → Lacks sep s → Lacks sep (cut_comment s)
unfolding cut_comment
cut_comment-Lacks sep [] h = tt
cut_comment-Lacks sep (c ∷ s) h = elim (Bool-cases (starts_comment c s)) [
  | inl e ↦ rw e tt
  | inr e ↦ rw e (h.0, cut_comment-Lacks sep s h.1)
]

split-join_lines :
    (lines : List Bytes)
    → All (Lacks b'\n') lines
    → split b'\n' (join_lines lines) ≡ cut_all lines ++ [] ∷ []
unfolding join_lines cut_all split
split-join_lines [] h = refl
split-join_lines (line ∷ lines) h =
    split_piece b'\n' (cut_comment line) (join_lines lines) (cut_comment-Lacks b'\n' line h.0)
    ∙ ap (◌∷◌ (cut_comment line)) (split-join_lines lines h.1)

-- The lines of the text without comments are the lines of the schema, each up to its comment, and an
-- empty one behind them.
strip_line_comments-lines :
    (sql : Bytes) → split b'\n' (strip_line_comments sql) ≡ cut_all (split b'\n' sql) ++ [] ∷ []
unfolding strip_line_comments
strip_line_comments-lines sql = split-join_lines (split b'\n' sql) (split-Lacks b'\n' sql)

starts_comment-cut :
    (c : ℕ) (s : Bytes) → starts_comment c s ≡ false → starts_comment c (cut_comment s) ≡ false
unfolding cut_comment
starts_comment-cut c [] h = refl
starts_comment-cut c (d ∷ s) h = elim (Bool-cases (starts_comment d s)) [
  | inl e ↦ rw e refl
  | inr e ↦ rw e h
]

cut_comment-IsBare : (s : Bytes) → IsBare (cut_comment s)
unfolding cut_comment
cut_comment-IsBare [] = tt
cut_comment-IsBare (c ∷ s) = elim (Bool-cases (starts_comment c s)) [
  | inl e ↦ rw e tt
  | inr e ↦ rw e (starts_comment-cut c s e, cut_comment-IsBare s)
]

-- A line break keeps two texts apart.
IsBare-break : (s t : Bytes) → IsBare s → IsBare t → IsBare (s ++ b'\n' ∷ t)
IsBare-break [] [] hs ht = (refl, tt)
IsBare-break [] (c ∷ t) hs ht = (refl, ht)
IsBare-break (c ∷ []) t hs ht = (ground arith, IsBare-break [] t tt ht)
IsBare-break (c ∷ d ∷ s) t hs ht = (hs.0, IsBare-break (d ∷ s) t hs.1 ht)

join_lines-IsBare : (lines : List Bytes) → IsBare (join_lines lines)
unfolding join_lines
join_lines-IsBare [] = tt
join_lines-IsBare (line ∷ lines) =
    IsBare-break (cut_comment line) (join_lines lines) (cut_comment-IsBare line)
      (join_lines-IsBare lines)

abbrev first_of : List Bytes → Bytes
first_of [] = []
first_of (piece ∷ pieces) = piece

starts_comment-split :
    (sep c : ℕ) (s : Bytes)
    → starts_comment c s ≡ false
    → starts_comment c (first_of (split sep s)) ≡ false
unfolding split
starts_comment-split sep c [] h = refl
starts_comment-split sep c (d ∷ s) h = go (d == sep) (split sep s)
  where
    go : (b : Bool) (xs : List Bytes) → starts_comment c (first_of (add_front b d xs)) ≡ false
    go true xs = refl
    go false [] = h
    go false (x ∷ xs) = h

add_front-IsBare :
    (b : Bool) (c : ℕ) (xs : List Bytes)
    → All IsBare xs
    → starts_comment c (first_of xs) ≡ false
    → All IsBare (add_front b c xs)
add_front-IsBare true c xs h e = (tt, h)
add_front-IsBare false c [] h e = ((e, tt), tt)
add_front-IsBare false c (x ∷ xs) h e = ((e, h.0), h.1)

split-IsBare : (sep : ℕ) (s : Bytes) → IsBare s → All IsBare (split sep s)
unfolding split
split-IsBare sep [] h = (tt, tt)
split-IsBare sep (c ∷ s) h =
    add_front-IsBare (c == sep) c (split sep s) (split-IsBare sep s h.1)
      (starts_comment-split sep c s h.0)

-- What the database may be sent: not blank, with no `--` and no semicolon.
abbrev pub IsStatement : Bytes → Type 0
IsStatement stmt = (is_blank stmt ≡ false) × IsBare stmt × Lacks b';' stmt

run_statements-IsStatement :
    (exec : Bytes → Bool) (pieces : List Bytes)
    → All IsBare pieces
    → All (Lacks b';') pieces
    → All IsStatement (run_statements exec pieces).0
unfolding run_statements
run_statements-IsStatement exec [] h k = tt
run_statements-IsStatement exec (stmt ∷ rest) h k =
    let later = run_statements-IsStatement exec rest h.1 k.1 in
    elim (Bool-cases (is_blank stmt)) [
      | inl e ↦ rw e later
      | inr e ↦ elim (Bool-cases (exec stmt)) [
        | inl f ↦ rw (e, f) ((e, h.0, k.0), later)
        | inr f ↦ rw (e, f) ((e, h.0, k.0), tt)
      ]
    ]

-- Whatever the schema and the answers of the database, every statement that `Migrate` sends has
-- something beside white space, and has neither two dashes in a row nor a semicolon in it.
pub migrate-IsStatement :
    (exec : Bytes → Bool) (schema : Bytes) → All IsStatement (migrate exec schema).0
unfolding migrate strip_line_comments
migrate-IsStatement exec schema =
    run_statements-IsStatement exec (split b';' (strip_line_comments schema))
      (split-IsBare b';' (strip_line_comments schema) (join_lines-IsBare (split b'\n' schema)))
      (split-Lacks b';' (strip_line_comments schema))
