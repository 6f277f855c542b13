-- ===== src/Query/Sources.antt =====
-- src/query.rs: the list of profile sources read back from a buffer that holds it.
use ferrisetw.Base.{
  ℕ, zero, suc, ◌+◌, ◌-◌, ◌^◌, ◌<◌, ◌≤◌, ◌≡◌, refl, sym, ap, ◌∙◌, inl, inr, false, List, [], ◌∷◌,
  ◌++◌, map, All, leb, le→leb, ◌==◌, Bool-cases, if◌then◌else◌, length, take, drop, length-append,
  length-drop, drop-drop, from_le_bytes, arith,
}
use mathlib.Core.List.{append-nil, append_assoc}
use ferrisetw.Native.EtwTypes.Groupmask.{u32_bytes}
use ferrisetw.Provider.EventFilter.{encode_utf16}
use ferrisetw.Query.{
  ProfileSourceInfo, read_u32, decode_description, source_at, profile_source_fixed_len, parse_from,
  parse_profile_sources,
}
use ferrisetw.Query.Utf16.{IsText, unit_bytes, decode_description-encoded}

-- An entry is the source, its reserved field, and the padding after its description.
pub record Entry : Type 0 where
  pub source : ProfileSourceInfo
  pub reserved : ℕ × ℕ
  pub padding : List ℕ

abbrev pub description_bytes : Entry → List ℕ
description_bytes e = unit_bytes (encode_utf16 e.source.description) ++ 0 ∷ 0 ∷ []

abbrev pub entry_size : Entry → ℕ
entry_size e = 24 + length (description_bytes e ++ e.padding)

abbrev pub entry_bytes : (next : ℕ) → Entry → List ℕ
entry_bytes next e =
    u32_bytes next
    ++ u32_bytes e.source.id
    ++ u32_bytes e.source.min_interval
    ++ u32_bytes e.source.max_interval
    ++ u32_bytes e.reserved.0
    ++ u32_bytes e.reserved.1
    ++ description_bytes e
    ++ e.padding

-- The entries as Windows lays them out, each with the offset of the next one, which is 0 in the last.
abbrev pub sources_bytes : List Entry → List ℕ
sources_bytes [] = []
sources_bytes (e ∷ []) = entry_bytes 0 e
sources_bytes (e ∷ f ∷ es) = entry_bytes (entry_size e) e ++ sources_bytes (f ∷ es)

abbrev pub IsSource : Entry → Type 0
IsSource e =
    (e.source.id < 2 ^ 32)
    × ((e.source.min_interval < 2 ^ 32)
        × ((e.source.max_interval < 2 ^ 32)
            × ((entry_size e < 2 ^ 32) × All IsText e.source.description)))

u32_read : (n : ℕ) → n < 2 ^ 32 → from_le_bytes (u32_bytes n) ≡ n
u32_read n h = omega arith

-- The fields at an offset where an entry lies.
record At (buf : List ℕ) (offset next : ℕ) (e : Entry) : Type 0 where
  read_next : read_u32 buf offset ≡ next
  read_source : source_at buf offset ≡ e.source
  read_size : (offset + profile_source_fixed_len) ≤ length buf

description_tail :
    (text padding rest : List ℕ)
    → ((text ++ 0 ∷ 0 ∷ []) ++ padding) ++ rest ≡ text ++ 0 ∷ 0 ∷ (padding ++ rest)
description_tail text padding rest =
    append_assoc (text ++ 0 ∷ 0 ∷ []) padding rest
    ∙ append_assoc text (0 ∷ 0 ∷ []) (padding ++ rest)

field_at :
    (buf ys : List ℕ) (offset k n : ℕ)
    → n < 2 ^ 32
    → take 4 (drop k ys) ≡ u32_bytes n
    → drop offset buf ≡ ys
    → read_u32 buf (offset + k) ≡ n
field_at buf ys offset k n h t d =
    ap (λ b. from_le_bytes (take 4 b)) (sym (drop-drop offset k buf) ∙ ap (drop k) d)
    ∙ ap from_le_bytes t
    ∙ u32_read n h

description_at :
    (buf : List ℕ) (offset next : ℕ) (e : Entry) (rest : List ℕ)
    → drop offset buf ≡ entry_bytes next e ++ rest
    → All IsText e.source.description
    → decode_description (drop (offset + profile_source_fixed_len) buf) ≡ e.source.description
description_at buf offset next e rest d text =
    ap decode_description (
      sym (drop-drop offset 24 buf)
      ∙ ap (drop 24) d
      ∙ description_tail (unit_bytes (encode_utf16 e.source.description)) e.padding rest)
    ∙ decode_description-encoded e.source.description (e.padding ++ rest) text

same_source :
    (s t : ProfileSourceInfo)
    → s.id ≡ t.id
    → s.min_interval ≡ t.min_interval
    → s.max_interval ≡ t.max_interval
    → s.description ≡ t.description
    → s ≡ t
same_source s t a b c d =
    λ i. record { id = a i; min_interval = b i; max_interval = c i; description = d i }

entry_bytes-At :
    (buf : List ℕ) (offset next : ℕ) (e : Entry) (rest : List ℕ)
    → drop offset buf ≡ entry_bytes next e ++ rest
    → next < 2 ^ 32
    → IsSource e
    → At buf offset next e
entry_bytes-At buf offset next e rest d n (small, (low, (high, (size, text)))) =
    let ys = entry_bytes next e ++ rest in
    let total : length ys ≡ length buf - offset = sym (ap length d) ∙ length-drop offset buf in
    record {
      read_next = ap (λ b. from_le_bytes (take 4 b)) d ∙ u32_read next n;
      read_source =
          same_source (source_at buf offset) e.source
            (field_at buf ys offset 4 e.source.id small refl d)
            (field_at buf ys offset 8 e.source.min_interval low refl d)
            (field_at buf ys offset 12 e.source.max_interval high refl d)
            (description_at buf offset next e rest d text);
      read_size = omega (arith, total);
    }

drop_length : (xs ys : List ℕ) → drop (length xs) (xs ++ ys) ≡ ys
drop_length [] ys = refl
drop_length (x ∷ xs) ys = drop_length xs ys

entry_bytes-length : (next : ℕ) (e : Entry) → length (entry_bytes next e) ≡ entry_size e
entry_bytes-length next e = omega arith

parse_one :
    (rounds : ℕ) (buf : List ℕ) (offset next : ℕ) (e : Entry)
    → At buf offset next e
    → parse_from (suc rounds) buf offset
      ≡ e.source ∷ (if next == 0 then [] else parse_from rounds buf (offset + next))
unfolding parse_from
parse_one rounds buf offset next e at = rw (le→leb _ _ at.read_size) (λ i.
    at.read_source i
    ∷ (if at.read_next i == 0 then [] else parse_from rounds buf (offset + at.read_next i)))

not_last : (e : Entry) → (entry_size e == 0) ≡ false
not_last e = ground arith

next_entry :
    (buf : List ℕ) (offset : ℕ) (e : Entry) (rest : List ℕ)
    → drop offset buf ≡ entry_bytes (entry_size e) e ++ rest
    → drop (offset + entry_size e) buf ≡ rest
next_entry buf offset e rest d =
    let size = entry_size e in
    sym (drop-drop offset size buf)
    ∙ ap (drop size) d
    ∙ ap (λ n. drop n (entry_bytes size e ++ rest)) (sym (entry_bytes-length size e))
    ∙ drop_length (entry_bytes size e) rest

parse_from-sources :
    (e : Entry) (es : List Entry) (rounds : ℕ) (buf : List ℕ) (offset : ℕ)
    → drop offset buf ≡ sources_bytes (e ∷ es)
    → length es < rounds
    → All IsSource (e ∷ es)
    → parse_from rounds buf offset ≡ map (λ x. x.source) (e ∷ es)
parse_from-sources e es zero buf offset d r all = absurd (omega arith)
parse_from-sources e [] (suc rounds) buf offset d r (h, all) =
    parse_one rounds buf offset 0 e
      (entry_bytes-At buf offset 0 e [] (d ∙ sym (append-nil (entry_bytes 0 e))) (omega arith) h)
parse_from-sources e (f ∷ es) (suc rounds) buf offset d r (h, all) =
    let size = entry_size e in
    let rest =
      parse_from-sources f es rounds buf (offset + size)
        (next_entry buf offset e (sources_bytes (f ∷ es)) d) (omega arith) all in
    parse_one rounds buf offset size e
      (entry_bytes-At buf offset size e (sources_bytes (f ∷ es)) d (h.1.1.1.0) h)
    ∙ ap (λ b. e.source ∷ (if b then [] else parse_from rounds buf (offset + size))) (not_last e)
    ∙ ap (◌∷◌ e.source) rest

sources_bytes-length : (es : List Entry) → length es ≤ length (sources_bytes es)
sources_bytes-length [] = omega arith
sources_bytes-length (e ∷ []) = omega arith
sources_bytes-length (e ∷ f ∷ es) = omega (
  arith,
  length-append (entry_bytes (entry_size e) e) (sources_bytes (f ∷ es)),
  sources_bytes-length (f ∷ es),
)

-- Profile sources that are laid out in a buffer, each with the offset of the next and with any
-- padding after its description, are read back as they are. Their fields fit in 32 bits, and a
-- description is a sequence of Unicode scalar values other than NUL.
pub parse_profile_sources-sources_bytes :
    (es : List Entry)
    → All IsSource es
    → parse_profile_sources (sources_bytes es) ≡ map (λ e. e.source) es
unfolding parse_profile_sources parse_from
parse_profile_sources-sources_bytes [] all = refl
parse_profile_sources-sources_bytes (e ∷ es) all =
    parse_from-sources e es (length (sources_bytes (e ∷ es))) (sources_bytes (e ∷ es)) 0 refl
      (sources_bytes-length (e ∷ es)) all

past_end :
    (buf : List ℕ) (offset : ℕ) → length buf ≤ offset → leb (offset + 24) (length buf) ≡ false
past_end buf offset h = ground arith

parse_from-past_end :
    (n : ℕ) (buf : List ℕ) (offset : ℕ) → length buf ≤ offset → parse_from n buf offset ≡ []
unfolding parse_from
parse_from-past_end zero buf offset h = refl
parse_from-past_end (suc n) buf offset h = rw (past_end buf offset h)

-- The bytes that are left get fewer.
fewer_left :
    (n next : ℕ) (buf : List ℕ) (offset : ℕ)
    → length buf ≤ offset + suc n
    → (next == 0) ≡ false
    → length buf ≤ offset + next + n
fewer_left n next buf offset h e = ground arith

-- The loop ends by itself, on any buffer: its result is the same for any number of rounds from the
-- bytes that are left on.
pub parse_from_rounds :
    (n m : ℕ) (buf : List ℕ) (offset : ℕ)
    → length buf ≤ offset + n
    → length buf ≤ offset + m
    → parse_from n buf offset ≡ parse_from m buf offset
unfolding parse_from
parse_from_rounds zero zero buf offset h g = refl
parse_from_rounds zero (suc m) buf offset h g =
    sym (parse_from-past_end (suc m) buf offset (omega arith))
parse_from_rounds (suc n) zero buf offset h g = parse_from-past_end (suc n) buf offset (omega arith)
parse_from_rounds (suc n) (suc m) buf offset h g =
    let next = read_u32 buf offset in
    elim (Bool-cases (next == 0)) [
      | inl e ↦ rw e
      | inr e ↦
          let rest =
            parse_from_rounds n m buf (offset + next) (fewer_left n next buf offset h e)
              (fewer_left m next buf offset g e) in
          rw (e, rest)
    ]
