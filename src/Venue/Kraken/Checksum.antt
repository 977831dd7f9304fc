-- ===== src/Venue/Kraken/Checksum.antt =====
-- internal/venue/kraken/checksum.go: Kraken's CRC32 of a book.
use Prim.Native.Nat.{bit_xor}
use mathlib.Core.Option
use tickstore.Prelude.{
  Bytes, List, Option, [], bytes_eq, get_elem?, if◌then◌else◌, int_eq, nat_eq, neg_ℤ, negsuc, none,
  pos, quot_ℤ, some, suc, zero, ℕ, ℤ, ◌%◌, ◌++◌, ◌+ℤ◌, ◌/◌, ◌==◌, ◌∷◌,
}
use tickstore.Norm.{Level, price_decimals}
use tickstore.Norm.Decimal.{format_int}

-- The package's own table `pow10`, which ends at 10^8.
abbrev pow10_table : List ℕ
pow10_table = 1 ∷ 10 ∷ 100 ∷ 1_000 ∷ 10_000 ∷ 100_000 ∷ 1_000_000 ∷ 10_000_000 ∷ 100_000_000 ∷ []

-- An index into the table; `none` is Go's panic.
unfoldable pub pow10_at : ℤ → Option ℕ
pow10_at (pos i) = get_elem? pow10_table i
pow10_at (negsuc i) = none

unfoldable pub checksum_field : ℤ → ℤ → Option Bytes
unfolding pow10_at
checksum_field v precision =
    Option.map (λ scale. format_int (quot_ℤ v scale))
      (pow10_at (pos price_decimals +ℤ neg_ℤ precision))

abbrev pub join_fields : Option Bytes → Option Bytes → Option Bytes
join_fields (some s) (some t) = some (s ++ t)
join_fields _ _ = none

-- The levels of one side, at most `left` of them.
unfoldable pub side_fields : ℕ → List Level → ℤ → ℤ → Option Bytes
unfolding checksum_field
side_fields zero levels price_prec qty_prec = some []
side_fields (suc left) [] price_prec qty_prec = some []
side_fields (suc left) (l ∷ ls) price_prec qty_prec =
    join_fields (join_fields (checksum_field l.price price_prec) (checksum_field l.size qty_prec))
      (side_fields left ls price_prec qty_prec)

-- `crc32.ChecksumIEEE`: the reflected polynomial, a bit at a time.
crc_bits : ℕ → ℕ → ℕ
crc_bits zero c = c
crc_bits (suc n) c = crc_bits n (if c % 2 == 1 then bit_xor (c / 2) 0xEDB88320 else c / 2)

crc_bytes : Bytes → ℕ → ℕ
crc_bytes [] c = c
crc_bytes (x ∷ s) c = crc_bytes s (crc_bits 8 (bit_xor c x))

unfoldable pub crc32 : Bytes → ℕ
unfolding crc_bits crc_bytes
crc32 s = bit_xor (crc_bytes s 0xFFFFFFFF) 0xFFFFFFFF

-- Asks, then bids. `none` is a panic in `checksumField`.
unfoldable pub book_checksum : List Level → List Level → ℤ → ℤ → Option ℕ
unfolding side_fields crc32
book_checksum bids asks price_prec qty_prec = Option.map crc32 (
    join_fields (side_fields 10 asks price_prec qty_prec) (side_fields 10 bids price_prec qty_prec))
