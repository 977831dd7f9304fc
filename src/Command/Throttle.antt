-- ===== src/Command/Throttle.antt =====
-- Book mode of cmd/tickstore/main.go: the times between the lines of a symbol.
use tickstore.Prelude.{All, Bytes, List, [], bytes_eq, int_eq, nat_eq, pos, ℕ, ◌+ℤ◌, ◌∷◌, ◌≡◌, ◌≤ℤ◌}
use tickstore.Norm.{Time}
use tickstore.Book.{Book}
use tickstore.Command.Printer.{Printer, TopLine}

-- A line of this symbol stands at least `every` behind the time `t`.
abbrev pub IsLater : ℕ → Bytes → Time → TopLine × Time → Type 0
IsLater every symbol t line = line.0.symbol ≡ symbol → t +ℤ pos every ≤ℤ line.1

-- Any two lines of one symbol are at least `every` apart.
abbrev pub IsSpaced : ℕ → List (TopLine × Time) → Type 0
IsSpaced every [] = Unit
IsSpaced every ((line, t) ∷ rest) = All (IsLater every line.symbol t) rest × IsSpaced every rest
