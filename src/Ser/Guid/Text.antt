-- ===== src/Ser/Guid/Text.antt =====
-- src/ser.rs: the text of a GUID, read back.
use ferrisetw.Base.{
  ℕ, zero, suc, ◌+◌, ◌-◌, ◌*◌, ◌/◌, ◌%◌, ◌^◌, ◌<◌, ◌≡◌, refl, sym, ap, ◌∙◌, inl, inr, Bool, true,
  false, ◌&&◌, some, List, [], ◌∷◌, ◌++◌, All, ltb, ◌==◌, ==_iff, Bool-cases, if◌then◌else◌, length,
  take, drop, from_be_bytes, IsByte, get_elem?, arith,
}
use ferrisetw.Parser.Scalars.{Guid}
use ferrisetw.Ser.Guid.{
  hex_digit, be_bytes4, be_bytes2, write_bytes, write_groups, guid_to_ascii_upper,
}

-- The value of a digit, and of the bytes that pairs of digits write.
abbrev pub digit_value : ℕ → ℕ
digit_value c = if ltb c 58 then c - 48 else c - 55

abbrev pub read_pairs : List ℕ → List ℕ
read_pairs [] = []
read_pairs (c ∷ []) = []
read_pairs (c ∷ d ∷ cs) = (digit_value c * 16 + digit_value d) ∷ read_pairs cs

-- Hyphens are left out.
abbrev pub without_hyphens : List ℕ → List ℕ
without_hyphens [] = []
without_hyphens (c ∷ cs) = let rest = without_hyphens cs in if c == 45 then rest else c ∷ rest

abbrev all_below : (ℕ → Bool) → ℕ → Bool
all_below p zero = true
all_below p (suc n) = p n && all_below p n

and_parts : (a b : Bool) → (a && b) ≡ true → (a ≡ true) × (b ≡ true)
and_parts true b h = (refl, h)
and_parts false b h = absurd (cc)

below : (p : ℕ → Bool) (n k : ℕ) → all_below p n ≡ true → k < n → p k ≡ true
below p zero k h l = absurd (omega arith)
below p (suc n) k h l =
    let (last, rest) = and_parts (p n) (all_below p n) h in
    elim (Bool-cases (k == n)) [
      | inl e ↦ ap p ((==_iff k n).0 e) ∙ last
      | inr e ↦ below p n k rest (ground arith)
    ]

abbrev digit_ok : ℕ → Bool
digit_ok n = (digit_value (hex_digit n) == n) && ltb 45 (hex_digit n)

digit : (n : ℕ) → n < 16 → (digit_value (hex_digit n) ≡ n) × ((hex_digit n == 45) ≡ false)
digit n h =
    let (value, above) =
      and_parts (digit_value (hex_digit n) == n) (ltb 45 (hex_digit n))
        (below digit_ok 16 n refl h) in
    ((==_iff (digit_value (hex_digit n)) n).0 value, ground arith)

without_hyphens-write_bytes :
    (bytes rest : List ℕ)
    → All IsByte bytes
    → without_hyphens (write_bytes bytes ++ rest) ≡ write_bytes bytes ++ without_hyphens rest
without_hyphens-write_bytes [] rest all = refl
without_hyphens-write_bytes (b ∷ bytes) rest (h, all) =
    rw ((digit (b / 16) (omega arith)).1, (digit (b % 16) (omega arith)).1)
      (ap (λ cs. hex_digit (b / 16) ∷ hex_digit (b % 16) ∷ cs)
        (without_hyphens-write_bytes bytes rest all))

All-take : (n : ℕ) (bytes : List ℕ) → All IsByte bytes → All IsByte (take n bytes)
All-take zero bytes all = tt
All-take (suc n) [] all = tt
All-take (suc n) (b ∷ bytes) (h, all) = (h, All-take n bytes all)

All-drop : (n : ℕ) (bytes : List ℕ) → All IsByte bytes → All IsByte (drop n bytes)
All-drop zero bytes all = all
All-drop (suc n) [] all = tt
All-drop (suc n) (b ∷ bytes) (h, all) = All-drop n bytes all

-- The bytes that the groups write.
abbrev grouped : List ℕ → List ℕ → List ℕ
grouped [] bytes = []
grouped (len ∷ lens) bytes = take len bytes ++ grouped lens (drop len bytes)

write_bytes-append : (bs cs : List ℕ) → write_bytes (bs ++ cs) ≡ write_bytes bs ++ write_bytes cs
write_bytes-append [] cs = refl
write_bytes-append (b ∷ bs) cs =
    ap (λ ds. hex_digit (b / 16) ∷ hex_digit (b % 16) ∷ ds) (write_bytes-append bs cs)

without_hyphens-write_groups :
    (lens bytes : List ℕ)
    → All IsByte bytes
    → without_hyphens (write_groups lens bytes) ≡ write_bytes (grouped lens bytes)
without_hyphens-write_groups [] bytes all = refl
without_hyphens-write_groups (len ∷ lens) bytes all =
    without_hyphens-write_bytes (take len bytes) (write_groups lens (drop len bytes))
      (All-take len bytes all)
    ∙ ap (λ cs. write_bytes (take len bytes) ++ cs)
        (without_hyphens-write_groups lens (drop len bytes) (All-drop len bytes all))
    ∙ sym (write_bytes-append (take len bytes) (grouped lens (drop len bytes)))

read_pairs-write_bytes :
    (bytes : List ℕ) → All IsByte bytes → read_pairs (write_bytes bytes) ≡ bytes
read_pairs-write_bytes [] all = refl
read_pairs-write_bytes (b ∷ bytes) (h, all) =
    let high = (digit (b / 16) (omega arith)).0 in
    let low = (digit (b % 16) (omega arith)).0 in
    let joined : digit_value (hex_digit (b / 16)) * 16 + digit_value (hex_digit (b % 16)) ≡ b =
      ap (λ n. n * 16 + digit_value (hex_digit (b % 16))) high
      ∙ ap (λ n. b / 16 * 16 + n) low
      ∙ omega arith in
    ap (λ n. n ∷ read_pairs (write_bytes bytes)) joined
    ∙ ap (◌∷◌ b) (read_pairs-write_bytes bytes all)

-- The fields of a GUID, out of a text.
abbrev pub read_guid : List ℕ → Guid
read_guid text =
    let bytes = read_pairs (without_hyphens text) in
    record {
      data1 = from_be_bytes (take 4 bytes);
      data2 = from_be_bytes (take 2 (drop 4 bytes));
      data3 = from_be_bytes (take 2 (drop 6 bytes));
      data4 = drop 8 bytes;
    }

abbrev pub IsGuid : Guid → Type 0
IsGuid g =
    (g.data1 < 2 ^ 32)
    × ((g.data2 < 2 ^ 16) × ((g.data3 < 2 ^ 16) × ((length g.data4 ≡ 8) × All IsByte g.data4)))

abbrev all_bytes : Guid → List ℕ
all_bytes g = be_bytes4 g.data1 ++ be_bytes2 g.data2 ++ be_bytes2 g.data3 ++ g.data4

all_bytes-IsByte : (g : Guid) → All IsByte g.data4 → All IsByte (all_bytes g)
all_bytes-IsByte g all = (
  omega arith,
  (
    omega arith,
    (omega arith, (omega arith, (omega arith, (omega arith, (omega arith, (omega arith, all)))))),
  ),
)

abbrev hyphenated : List ℕ
hyphenated = 2 ∷ 2 ∷ 2 ∷ 6 ∷ []

written :
    (bytes : List ℕ)
    → All IsByte bytes
    → take 4 bytes ++ grouped hyphenated (drop 4 bytes) ≡ bytes
    → read_pairs
        (without_hyphens (write_bytes (take 4 bytes) ++ write_groups hyphenated (drop 4 bytes)))
      ≡ bytes
written bytes all whole =
    ap read_pairs (
      without_hyphens-write_bytes (take 4 bytes) (write_groups hyphenated (drop 4 bytes))
        (All-take 4 bytes all)
      ∙ ap (λ cs. write_bytes (take 4 bytes) ++ cs)
          (without_hyphens-write_groups hyphenated (drop 4 bytes) (All-drop 4 bytes all))
      ∙ sym (write_bytes-append (take 4 bytes) (grouped hyphenated (drop 4 bytes)))
      ∙ ap write_bytes whole)
    ∙ read_pairs-write_bytes bytes all

eight : (xs : List ℕ) → length xs ≡ 8 → take 2 xs ++ (take 6 (drop 2 xs) ++ []) ≡ xs
eight (a ∷ b ∷ c ∷ d ∷ e ∷ f ∷ g ∷ h ∷ []) len = refl
eight _ len = absurd (omega arith)

same_guid :
    (g h : Guid)
    → g.data1 ≡ h.data1
    → g.data2 ≡ h.data2
    → g.data3 ≡ h.data3
    → g.data4 ≡ h.data4
    → g ≡ h
same_guid g h a b c d = λ i. record { data1 = a i; data2 = b i; data3 = c i; data4 = d i }

abbrev guid_of : List ℕ → Guid
guid_of bytes = record {
  data1 = from_be_bytes (take 4 bytes);
  data2 = from_be_bytes (take 2 (drop 4 bytes));
  data3 = from_be_bytes (take 2 (drop 6 bytes));
  data4 = drop 8 bytes;
}

-- 36 characters, with hyphens after 8, 12, 16 and 20 digits.
abbrev pub IsHyphenated : List ℕ → Type 0
IsHyphenated text =
    (length text ≡ 36)
    × ((get_elem? text 8 ≡ some 45)
        × ((get_elem? text 13 ≡ some 45)
            × ((get_elem? text 18 ≡ some 45) × (get_elem? text 23 ≡ some 45))))

abbrev text_of : ℕ → ℕ → ℕ → List ℕ → List ℕ
text_of data1 data2 data3 data4 =
    let bytes = be_bytes4 data1 ++ be_bytes2 data2 ++ be_bytes2 data3 ++ data4 in
    write_bytes (take 4 bytes) ++ write_groups hyphenated (drop 4 bytes)

text_of-IsHyphenated :
    (data1 data2 data3 : ℕ) (data4 : List ℕ)
    → length data4 ≡ 8
    → IsHyphenated (text_of data1 data2 data3 data4)
text_of-IsHyphenated x y z (a ∷ b ∷ c ∷ d ∷ e ∷ f ∷ g ∷ h ∷ []) len =
    (refl, (refl, (refl, (refl, refl))))
text_of-IsHyphenated x y z _ len = absurd (omega arith)

-- The text that is written for a GUID has 36 characters, hyphens at the indices 8, 13, 18 and 23,
-- and is read back, without its hyphens, as that GUID: its fields in hexadecimal, the highest digit
-- first, the last one byte by byte. The fields have the widths of their types.
pub read_guid-guid_to_ascii_upper :
    (g : Guid)
    → IsGuid g
    → IsHyphenated (guid_to_ascii_upper g) × (read_guid (guid_to_ascii_upper g) ≡ g)
unfolding guid_to_ascii_upper
read_guid-guid_to_ascii_upper g (small, (word, (last, (len, all)))) = (
  text_of-IsHyphenated g.data1 g.data2 g.data3 g.data4 len,
  ap guid_of (
        written (all_bytes g) (all_bytes-IsByte g all) (
          ap (λ cs. be_bytes4 g.data1 ++ be_bytes2 g.data2 ++ be_bytes2 g.data3 ++ cs)
            (eight g.data4 len)))
      ∙ same_guid (guid_of (all_bytes g)) g (omega arith) (omega arith) (omega arith) refl,
)
