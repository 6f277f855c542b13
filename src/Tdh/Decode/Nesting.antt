-- ===== src/Tdh/Decode/Nesting.antt =====
-- src/native/tdh.rs: when the recursion over nested structures ends.
use ferrisetw.Base.{
  ℕ, zero, suc, ◌+◌, ◌≤◌, ◌<◌, ◌≡◌, ◌≢◌, refl, ap, ◌∙◌, inl, inr, ◌⊎◌, true, false, some, List,
  if◌then◌else◌, length, get_elem?, ◌==◌, ==_iff, get_elem?-lt, get_elem?-none, Option-cases,
  Bool-cases, arith,
}
use ferrisetw.Tdh.Property.{Property, Members, property, nil, cons}
use ferrisetw.Tdh.Decode.{
  EventPropertyInfo, contains_flag, property_struct, region, Parsed, parsed, unreadable,
  out_of_fuel, and_then, parse_range, parse_property, parse_struct, struct_info, new,
}

-- The entries have ranks, and every entry of the member region of a structure is of a lower rank
-- than the structure.
abbrev pub IsRanked : (ℕ → ℕ) → List EventPropertyInfo → Type 0
IsRanked rank entries =
    (i j : ℕ) (e : EventPropertyInfo)
    → get_elem? entries i ≡ some e
    → contains_flag e.flags property_struct ≡ true
    → (region entries e).0 ≤ j
    → j < (region entries e).0 + (region entries e).1
    → rank j < rank i

abbrev pub IsParsed : {A : Type 0} → Parsed A → Type 0
IsParsed {A} m = (a : A) × (m ≡ parsed a)

parse_range-suc :
    (parse : ℕ → Parsed Property) (index n : ℕ) (p : Property) (ms : Members)
    → parse index ≡ parsed p
    → parse_range parse (suc index) n ≡ parsed ms
    → parse_range parse index (suc n) ≡ parsed (cons p ms)
unfolding parse_range
parse_range-suc parse index n p ms e f = rw (e, f, parse_range) refl

parse_range-IsParsed :
    (parse : ℕ → Parsed Property) (index n : ℕ)
    → ((i : ℕ) → index ≤ i → i < index + n → IsParsed (parse i))
    → IsParsed (parse_range parse index n)
unfolding parse_range
parse_range-IsParsed parse index zero all = (nil, refl)
parse_range-IsParsed parse index (suc n) all =
    let (p, e) = all index (omega arith) (omega arith) in
    let (ms, f) =
      parse_range-IsParsed parse (suc index) n (λ i lo hi. all i (omega arith) (omega arith)) in
    (cons p ms, parse_range-suc parse index n p ms e f)

parse_struct-after :
    (parse : ℕ → Parsed Property) (entries : List EventPropertyInfo) (e : EventPropertyInfo)
    (m : Parsed Members)
    → parse_range parse (region entries e).0 (region entries e).1 ≡ m
    → parse_struct parse entries e ≡ and_then m (λ ms. parsed (property e.name (struct_info e ms)))
unfolding parse_struct
parse_struct-after parse entries e m h = rw (h, parse_struct) refl

-- The two kinds of entries.
parse_property-suc :
    (fuel : ℕ) (entries : List EventPropertyInfo) (index : ℕ) (e : EventPropertyInfo)
    → get_elem? entries index ≡ some e
    → parse_property (suc fuel) entries index ≡ (
        if contains_flag e.flags property_struct
        then parse_struct (parse_property fuel entries) entries e
        else parsed (property e.name (new e)))
unfolding parse_property
parse_property-suc fuel entries index e f = rw (f, parse_property) refl

parse_property-value :
    (fuel : ℕ) (entries : List EventPropertyInfo) (index : ℕ) (e : EventPropertyInfo)
    → get_elem? entries index ≡ some e
    → contains_flag e.flags property_struct ≡ false
    → parse_property (suc fuel) entries index ≡ parsed (property e.name (new e))
unfolding parse_property
parse_property-value fuel entries index e f g =
    parse_property-suc fuel entries index e f
    ∙ ap
        (λ b.
          if b
          then parse_struct (parse_property fuel entries) entries e
          else parsed (property e.name (new e)))
        g

parse_property-struct :
    (fuel : ℕ) (entries : List EventPropertyInfo) (index : ℕ) (e : EventPropertyInfo)
    (m : Parsed Members)
    → get_elem? entries index ≡ some e
    → contains_flag e.flags property_struct ≡ true
    → parse_range (parse_property fuel entries) (region entries e).0 (region entries e).1 ≡ m
    → parse_property (suc fuel) entries index
      ≡ and_then m (λ ms. parsed (property e.name (struct_info e ms)))
unfolding parse_property
parse_property-struct fuel entries index e m f g h =
    parse_property-suc fuel entries index e f
    ∙ ap
        (λ b.
          if b
          then parse_struct (parse_property fuel entries) entries e
          else parsed (property e.name (new e)))
        g
    ∙ parse_struct-after (parse_property fuel entries) entries e m h

-- Where the entries can be ranked so that every structure has only members of lower ranks, which is
-- to say that no structure is a member of itself at any depth, every entry is parsed: one of a rank
-- with more fuel than that rank.
pub parse_property-IsParsed :
    (entries : List EventPropertyInfo) (rank : ℕ → ℕ) (fuel index : ℕ)
    → IsRanked rank entries
    → index < length entries
    → rank index < fuel
    → IsParsed (parse_property fuel entries index)
unfolding parse_property
parse_property-IsParsed entries rank zero index ranked within enough = absurd (omega arith)
parse_property-IsParsed entries rank (suc fuel) index ranked within enough =
    elim (Option-cases (get_elem? entries index)) [
      | inl f ↦ absurd (let out = get_elem?-none entries index f in omega arith)
      | inr (e, f) ↦ elim (Bool-cases (contains_flag e.flags property_struct)) [
        | inr g ↦ (property e.name (new e), parse_property-value fuel entries index e f g)
        | inl g ↦
            let (ms, h) =
              parse_range-IsParsed (parse_property fuel entries) (region entries e).0
                (region entries e).1
                (λ i lo hi.
                  let lower = ranked index i e f g lo hi in
                  parse_property-IsParsed entries rank fuel i ranked (omega arith) (omega arith)) in
            (
              property e.name (struct_info e ms),
              parse_property-struct fuel entries index e (parsed ms) f g h,
            )
      ]
    ]

Parsed-cases : {A : Type 0} (m : Parsed A) → (m ≡ unreadable) ⊎ ((m ≡ out_of_fuel) ⊎ IsParsed m)
Parsed-cases unreadable = inl refl
Parsed-cases out_of_fuel = inr (inl refl)
Parsed-cases (parsed a) = inr (inr (a, refl))

and_then-readable :
    {A B : Type 0} (m : Parsed A) (f : A → Parsed B)
    → m ≢ unreadable
    → ((a : A) → f a ≢ unreadable)
    → and_then m f ≢ unreadable
and_then-readable (parsed a) f m_readable f_readable = f_readable a
and_then-readable unreadable f m_readable f_readable = absurd (m_readable refl)
and_then-readable out_of_fuel f m_readable f_readable = λ e. cc

parse_range-readable :
    (parse : ℕ → Parsed Property) (start n : ℕ)
    → ((i : ℕ) → start ≤ i → i < start + n → parse i ≢ unreadable)
    → parse_range parse start n ≢ unreadable
unfolding parse_range
parse_range-readable parse start zero all = λ e. cc
parse_range-readable parse start (suc n) all =
    let rest =
      parse_range-readable parse (suc start) n (λ i lo hi. all i (omega arith) (omega arith)) in
    and_then-readable (parse start) _ (all start (omega arith) (omega arith))
      (λ p. and_then-readable (parse_range parse (suc start) n) _ rest (λ ms e. cc))

-- An entry of the array is never unreadable.
parse_property-readable :
    (entries : List EventPropertyInfo) (fuel index : ℕ)
    → index < length entries
    → parse_property fuel entries index ≢ unreadable
unfolding parse_property
parse_property-readable entries zero index within = λ e. cc
parse_property-readable entries (suc fuel) index within =
    elim (Option-cases (get_elem? entries index)) [
      | inl f ↦ absurd (let out = get_elem?-none entries index f in omega arith)
      | inr (e, f) ↦ elim (Bool-cases (contains_flag e.flags property_struct)) [
        | inr g ↦ rw (parse_property-value fuel entries index e f g) (λ e. cc)
        | inl g ↦
            let members =
              parse_range (parse_property fuel entries) (region entries e).0 (region entries e).1 in
            rw (parse_property-struct fuel entries index e members f g refl) (
              and_then-readable members _
                (parse_range-readable (parse_property fuel entries) (region entries e).0
                  (region entries e).1
                  (λ i lo hi. parse_property-readable entries fuel i (omega arith)))
                (λ ms e. cc))
      ]
    ]

parse_range-out_of_fuel :
    (parse : ℕ → Parsed Property) (start n i : ℕ)
    → ((j : ℕ) → start ≤ j → j < start + n → parse j ≢ unreadable)
    → start ≤ i
    → i < start + n
    → parse i ≡ out_of_fuel
    → parse_range parse start n ≡ out_of_fuel
unfolding parse_range
parse_range-out_of_fuel parse start zero i all lo hi e = absurd (omega arith)
parse_range-out_of_fuel parse start (suc n) i all lo hi e = elim (Parsed-cases (parse start)) [
  | inl f ↦ absurd (all start (omega arith) (omega arith) f)
  | inr (inl f) ↦ rw (f, parse_range) refl
  | inr (inr (p, f)) ↦ elim (Bool-cases (start == i)) [
    | inl g ↦ cc (ap parse ((==_iff start i).0 g), e, f)
    | inr g ↦
        let apart : ¬ (start ≡ i) = λ same. cc ((==_iff start i).1 same, g) in
        rw
          (
            f,
            parse_range-out_of_fuel parse (suc start) n i
                (λ j a b. all j (omega arith) (omega arith)) (omega arith) (omega arith) e,
            parse_range,
          )
          refl
  ]
]

-- Where the member region of a structure has the structure itself, no fuel is enough to parse it:
-- the recursion never ends, neither with a property nor with the `None` of an unreadable entry.
pub parse_property_cyclic :
    (entries : List EventPropertyInfo) (index fuel : ℕ) (e : EventPropertyInfo)
    → get_elem? entries index ≡ some e
    → contains_flag e.flags property_struct ≡ true
    → e.in_type ≤ index
    → index < e.in_type + e.out_type
    → parse_property fuel entries index ≡ out_of_fuel
unfolding parse_property
parse_property_cyclic entries index zero e f g lo hi = refl
parse_property_cyclic entries index (suc fuel) e f g lo hi =
    let inside = get_elem?-lt entries index e f in
    let below = parse_property_cyclic entries index fuel e f g lo hi in
    parse_property-struct fuel entries index e out_of_fuel f g (
      parse_range-out_of_fuel (parse_property fuel entries) (region entries e).0
        (region entries e).1 index (λ j a b. parse_property-readable entries fuel j (omega arith))
        (omega arith) (omega arith) below)
