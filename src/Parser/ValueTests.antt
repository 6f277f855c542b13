-- ===== src/Parser/ValueTests.antt =====
-- The theorems about decoded values at concrete bytes.
use ferrisetw.Base.{ℕ, ◌-◌, ◌≡◌, refl, false, List, [], ◌∷◌, take, drop, arith}
use ferrisetw.Fixtures.{no_externals}
use ferrisetw.Parser.Result.{ok}
use ferrisetw.Parser.Size.{counted_size, read_count_prefix}
use ferrisetw.Parser.Text.{decode_text, parse_counted_string}
use ferrisetw.Parser.Text.Counted.{counted_size-parse}

-- A count of two and two letters, with a byte of the next property after them.
abbrev counted_hi : List ℕ
counted_hi = 2 ∷ 0 ∷ 104 ∷ 105 ∷ 7 ∷ []

counted_size_hi : counted_size counted_hi false ≡ ok 4
unfolding counted_size read_count_prefix
counted_size_hi = refl

counted_size-parse_example :
    parse_counted_string no_externals false (take 4 counted_hi) false
    ≡ decode_text no_externals (take (4 - 2) (drop 2 counted_hi)) false
counted_size-parse_example =
    counted_size-parse no_externals false false counted_hi 4 counted_size_hi (omega arith)

counted_hi_text :
    parse_counted_string no_externals false (take 4 counted_hi) false ≡ ok (104 ∷ 105 ∷ [])
unfolding parse_counted_string
counted_hi_text = refl
