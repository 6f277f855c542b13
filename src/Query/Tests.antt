-- ===== src/Query/Tests.antt =====
-- The theorems of this directory at a buffer with two profile sources.
use ferrisetw.Base.{ℕ, ◌≡◌, inl, inr, List, [], ◌∷◌, map, arith}
use ferrisetw.Query.{parse_from, parse_profile_sources}
use ferrisetw.Query.Sources.{
  Entry, sources_bytes, parse_profile_sources-sources_bytes, parse_from_rounds,
}

-- "Ti", with two bytes of padding.
abbrev timer : Entry
timer = record {
  source = record { id = 5; min_interval = 1; max_interval = 10000; description = 84 ∷ 105 ∷ [] };
  reserved = (0, 0);
  padding = 0 ∷ 0 ∷ [];
}

-- A character outside the basic plane.
abbrev emoji : Entry
emoji = record {
  source = record {
    id = 0xfffffffe;
    min_interval = 256;
    max_interval = 65536;
    description = 0x1f600 ∷ [];
  };
  reserved = (7, 0);
  padding = [];
}

abbrev entries : List Entry
entries = timer ∷ emoji ∷ []

parse_profile_sources-sources_bytes_example :
    parse_profile_sources (sources_bytes entries) ≡ map (λ e. e.source) entries
parse_profile_sources-sources_bytes_example = parse_profile_sources-sources_bytes entries (
  (
    omega arith,
    (
      omega arith,
      (
        omega arith,
        (omega arith, ((inl (omega arith), omega arith), ((inl (omega arith), omega arith), tt))),
      ),
    ),
  ),
  (
    (
      omega arith,
      (
        omega arith,
        (omega arith, (omega arith, ((inr (omega arith, omega arith), omega arith), tt))),
      ),
    ),
    tt,
  ),
)

-- Two entries that overlap: the offset of the next is 1 in the first.
abbrev overlapping : List ℕ
overlapping =
    1 ∷ 0 ∷ 0 ∷ 0 ∷ 0 ∷ 0 ∷ 0 ∷ 0 ∷ 0 ∷ 0 ∷ 0 ∷ 0 ∷ 0 ∷ 0 ∷ 0 ∷ 0 ∷ 0 ∷ 0 ∷ 0 ∷ 0 ∷ 0 ∷ 0 ∷ 0 ∷ 0
    ∷ 0 ∷ []

parse_from_rounds_example : parse_from 25 overlapping 0 ≡ parse_from 1000 overlapping 0
parse_from_rounds_example = parse_from_rounds 25 1000 overlapping 0 (omega arith) (omega arith)
