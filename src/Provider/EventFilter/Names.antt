-- ===== src/Provider/EventFilter/Names.antt =====
-- src/provider/event_filter.rs: the names that a descriptor holds are those of its filter.
use ferrisetw.Base.{
  ℕ, suc, ◌+◌, ◌*◌, ◌%◌, ◌^◌, ◌≤◌, ◌≡◌, refl, sym, ap, ◌∙◌, String, Bool, true, false, List, [],
  ◌∷◌, ◌++◌, map, All, ltb, lt→ltb, leb, ◌==◌, if◌then◌else◌, length, arith,
}
use mathlib.Core.List.{append-nil, append_assoc}
use ferrisetw.Provider.EventFilter.{
  FilterResult, ok, err, EventNamesFilter, EventFilterDescriptor, Content, FilterType, event_name,
  wide_names, event_names, Platform, is_empty, encode_utf16, executable_name_refused, push_names,
  any_event_name_refused, names_size, copy_names, try_new, terminated, try_new_by_executable_names,
  try_new_by_event_names,
}
use ferrisetw.Provider.EventFilter.Pieces.{
  split_at_ends, is_nul, ends_name, IsInside, split_at_ends-piece, split-copy_names,
  copy_names-length, encode_utf16-IsInside,
}

guard-inv :
    {A : Type 0} (refused : Bool) (message : String) (rest : FilterResult A) (a : A)
    → (if refused then err message else rest) ≡ ok a
    → (refused ≡ false) × (rest ≡ ok a)
guard-inv true message rest a e = absurd (cc)
guard-inv false message rest a e = (refl, e)

granted-inv :
    {A : Type 0} (granted : Bool) (message : String) (a b : A)
    → (if granted then ok a else err message) ≡ ok b
    → a ≡ b
granted-inv true message a b e = cc
granted-inv false message a b e = absurd (cc)

abbrev after_first : List (List ℕ) → List ℕ
after_first [] = []
after_first (name ∷ names) = 59 ∷ (encode_utf16 name ++ after_first names)

abbrev IsAllowed : List ℕ → Type 0
IsAllowed name = executable_name_refused name ≡ false

name-IsInside : (name : List ℕ) → IsAllowed name → All (IsInside ends_name) (encode_utf16 name)
name-IsInside name e = encode_utf16-IsInside name (ground arith) (ground arith)

split-after_first :
    (first : List ℕ) (names : List (List ℕ))
    → All (IsInside ends_name) first
    → All IsAllowed names
    → split_at_ends ends_name (first ++ (after_first names ++ 0 ∷ []))
      ≡ first ∷ map encode_utf16 names
split-after_first first [] inside allowed = split_at_ends-piece ends_name first 0 [] inside refl
split-after_first first (name ∷ names) inside (here, allowed) =
    split_at_ends-piece ends_name first 59 ((encode_utf16 name ++ after_first names) ++ 0 ∷ [])
      inside refl
    ∙ ap (λ rest. first ∷ split_at_ends ends_name rest)
        (append_assoc (encode_utf16 name) (after_first names) (0 ∷ []))
    ∙ ap (◌∷◌ first) (split-after_first (encode_utf16 name) names (name-IsInside name here) allowed)

ok_inj : {A : Type 0} (a b : A) → ok a ≡ ok b → a ≡ b
ok_inj a b e = cc

push_names-step :
    (i : ℕ) (wide name : List ℕ) (names : List (List ℕ)) (units : List ℕ)
    → push_names i wide (name ∷ names) ≡ ok units
    → IsAllowed name
      × (push_names (suc i) ((if ltb 0 i then wide ++ 59 ∷ [] else wide) ++ encode_utf16 name) names
          ≡ ok units)
unfolding push_names
push_names-step i wide name names units e =
    guard-inv (executable_name_refused name)
      "Executable names must not be empty, or contain ';' or NUL"
      (push_names (suc i) ((if ltb 0 i then wide ++ 59 ∷ [] else wide) ++ encode_utf16 name) names)
      units e

push_names-after :
    (i : ℕ) (wide : List ℕ) (names : List (List ℕ)) (units : List ℕ)
    → push_names (suc i) wide names ≡ ok units
    → All IsAllowed names × (units ≡ wide ++ after_first names)
unfolding push_names
push_names-after i wide [] units e = (tt, sym (ok_inj wide units e) ∙ sym (append-nil wide))
push_names-after i wide (name ∷ names) units e =
    let (here, later) = push_names-step (suc i) wide name names units e in
    let (allowed, shape) =
      push_names-after (suc i) ((wide ++ 59 ∷ []) ++ encode_utf16 name) names units
        (rw (lt→ltb 0 (suc i) (omega arith)) at later) in
    (
      (here, allowed),
      shape
          ∙ append_assoc (wide ++ 59 ∷ []) (encode_utf16 name) (after_first names)
          ∙ append_assoc wide (59 ∷ []) (encode_utf16 name ++ after_first names),
    )

try_new-inv :
    (p : Platform) (size max_size : ℕ) (filter_type : FilterType) (content : Content)
    (d : EventFilterDescriptor)
    → try_new p size max_size filter_type content ≡ ok d
    → (d.size ≡ size) × ((d.content ≡ content) × (size ≤ max_size))
unfolding try_new
try_new-inv p size max_size filter_type content d e =
    let (some_data, accepted) = guard-inv (size == 0) "Filter must not be empty" _ d e in
    let (is_u32, fits) = guard-inv (leb (2 ^ 32) size) "Exceeded filter size limits" _ d accepted in
    let (in_limit, built) = guard-inv (ltb max_size size) "Exceeded filter size limits" _ d fits in
    let made = granted-inv (p.alloc size) "Invalid allocation" _ d built in
    (
      sym (ap (λ f. EventFilterDescriptor.size f) made),
      (sym (ap (λ f. EventFilterDescriptor.content f) made), ground arith),
    )

terminated-inv :
    (p : Platform) (pushed : FilterResult (List ℕ)) (d : EventFilterDescriptor)
    → terminated p pushed ≡ ok d
    → (wide : List ℕ) × ((pushed ≡ ok wide)
        × ((d.size ≡ 2 * length (wide ++ 0 ∷ [])) × (d.content ≡ wide_names (wide ++ 0 ∷ []))))
terminated-inv p (err e) d h = absurd (cc)
terminated-inv p (ok wide) d h =
    let (sized, (filled, limit)) = try_new-inv p _ _ _ _ d h in (wide, (refl, (sized, filled)))

-- Of accepted executable names, the descriptor holds one wide string whose allocation has two bytes
-- for each unit of it; taken apart at its semicolons and its NUL, the string is the names in their
-- order, each in UTF-16 and none of them split.
pub try_new_by_executable_names-split :
    (p : Platform) (first : List ℕ) (names : List (List ℕ)) (d : EventFilterDescriptor)
    → try_new_by_executable_names p (first ∷ names) ≡ ok d
    → (units : List ℕ) × ((d.content ≡ wide_names units)
        × ((d.size ≡ 2 * length units)
            × (split_at_ends ends_name units ≡ map encode_utf16 (first ∷ names))))
unfolding try_new_by_executable_names
try_new_by_executable_names-split p first names d e =
    let (wide, (pushed, (sized, filled))) =
      terminated-inv p (push_names 0 [] (first ∷ names)) d e in
    let (here, later) = push_names-step 0 [] first names wide pushed in
    let (allowed, shape) = push_names-after 0 (encode_utf16 first) names wide later in
    (
      wide ++ 0 ∷ [],
      (
        filled,
        (
          sized,
          ap (λ w. split_at_ends ends_name (w ++ 0 ∷ [])) shape
              ∙ ap (split_at_ends ends_name)
                  (append_assoc (encode_utf16 first) (after_first names) (0 ∷ []))
              ∙ split-after_first (encode_utf16 first) names (name-IsInside first here) allowed,
        ),
      ),
    )

-- Of accepted event names, the allocation has exactly the header and the bytes that the copy writes
-- and keeps within the limit, and the bytes, taken apart at each NUL, are the names in their order.
pub try_new_by_event_names-split :
    (p : Platform) (filter : EventNamesFilter) (d : EventFilterDescriptor)
    → try_new_by_event_names p filter ≡ ok d
    → (bytes : List ℕ) × ((d.content ≡ event_names filter (length filter.names % 2 ^ 16) bytes)
        × ((d.size ≡ p.event_name_header_size + length bytes)
            × ((d.size ≤ p.max_event_filter_event_name_size)
                × (split_at_ends is_nul bytes ≡ filter.names))))
unfolding try_new_by_event_names
try_new_by_event_names-split p filter d e =
    let (some_names, rest) = guard-inv (is_empty filter.names) _ _ d e in
    let (allowed, built) = guard-inv (any_event_name_refused filter.names) _ _ d rest in
    let (sized, (filled, limit)) =
      try_new-inv p (p.event_name_header_size + names_size filter.names)
        p.max_event_filter_event_name_size event_name _ d built in
    (
      copy_names filter.names,
      (
        filled,
        (
          omega (arith, sized, copy_names-length filter.names),
          (omega (arith, sized, limit), split-copy_names filter.names allowed),
        ),
      ),
    )
