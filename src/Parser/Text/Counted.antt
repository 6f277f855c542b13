-- ===== src/Parser/Text/Counted.antt =====
-- src/parser.rs: counted strings, between the walk that sizes them and the decoder.
use ferrisetw.Base.{
  ℕ, suc, ◌+◌, ◌-◌, ◌*◌, ◌≤◌, ◌≡◌, refl, sym, ◌∙◌, Bool, true, false, some, List, [], ◌∷◌, length,
  take, drop, if◌then◌else◌, get_to, get_range, length-take, take-take, arith,
}
use ferrisetw.Record.{Externals}
use ferrisetw.Parser.Result.{ok, ok-injective}
use ferrisetw.Parser.Size.{read_count_prefix, counted_size}
use ferrisetw.Parser.Text.{decode_text, decode_counted_payload, parse_counted_string}

abbrev count_of : Bool → ℕ → ℕ → ℕ
count_of big_endian a b = if big_endian then b + 256 * a else a + 256 * b

read_count_prefix-two :
    (big_endian : Bool) (a b : ℕ) (bytes : List ℕ)
    → read_count_prefix (a ∷ b ∷ bytes) big_endian ≡ ok (count_of big_endian a b)
unfolding read_count_prefix get_to
read_count_prefix-two true a b bytes = ground arith
read_count_prefix-two false a b bytes = ground arith

counted_size-two :
    (big_endian : Bool) (a b : ℕ) (bytes : List ℕ)
    → counted_size (a ∷ b ∷ bytes) big_endian ≡ ok (2 + count_of big_endian a b)
unfolding counted_size
counted_size-two big_endian a b bytes =
    rw (read_count_prefix-two big_endian a b bytes, counted_size) refl

take-length : (n : ℕ) (xs : List ℕ) → n ≤ length xs → length (take n xs) ≡ n
take-length n xs le = let h = length-take n xs in omega arith

counted_range :
    (a b n : ℕ) (bytes : List ℕ)
    → n ≤ length bytes
    → get_range 2 (2 + n) (a ∷ b ∷ take n bytes) ≡ some (take n bytes)
unfolding get_range
counted_range a b n bytes le =
    let len = take-length n bytes le in let again = take-take n bytes in ground arith

module _ (x : Externals) where
  -- The same for a count that has been read.
  parse_counted-read :
      (big_endian wide : Bool) (a b n : ℕ) (bytes : List ℕ)
      → read_count_prefix (a ∷ b ∷ take n bytes) big_endian ≡ ok n
      → n ≤ length bytes
      → parse_counted_string x big_endian (take (suc (suc n)) (a ∷ b ∷ bytes)) wide
        ≡ decode_text x (take n bytes) wide
  unfolding parse_counted_string decode_counted_payload
  parse_counted-read big_endian wide a b n bytes e le =
      rw (e, counted_range a b n bytes le, parse_counted_string, decode_counted_payload) refl

  -- A counted string that the walk has sized and sliced out of the event decodes to the text of
  -- exactly the bytes that its count covers, in either byte order of the count.
  pub counted_size-parse :
      (big_endian wide : Bool) (remaining : List ℕ) (n : ℕ)
      → counted_size remaining big_endian ≡ ok n
      → n ≤ length remaining
      → parse_counted_string x big_endian (take n remaining) wide
        ≡ decode_text x (take (n - 2) (drop 2 remaining)) wide
  unfolding counted_size read_count_prefix get_to
  counted_size-parse big_endian wide [] n e le = cc
  counted_size-parse big_endian wide (a ∷ []) n e le = cc
  counted_size-parse big_endian wide (a ∷ b ∷ bytes) n e le =
      let k = count_of big_endian a b in
      let same : 2 + k ≡ n = ok-injective (sym (counted_size-two big_endian a b bytes) ∙ e) in
      let size : n ≡ suc (suc k) = omega arith in
      let rest : n - 2 ≡ k = omega arith in
      rw (rest, size)
        (parse_counted-read big_endian wide a b k bytes
          (read_count_prefix-two big_endian a b (take k bytes)) (omega arith))
