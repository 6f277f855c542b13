-- ===== src/Parser/Cache/Layout.antt =====
-- The layout of the parser's cache: what the walk of src/parser.rs has located, in every state
-- that lookups can reach.
use ferrisetw.Base.{
  ℕ, suc, ◌+◌, ◌≤◌, ◌≡◌, refl, sym, ap, subst, ◌∙◌, inl, inr, ◌⊎◌, Option, none, some, List, [],
  ◌∷◌, ◌++◌, map, length, get_elem?, take, drop, get_to, get_from, get_from-cases, length-append,
  length-take, length-drop, take-add, take-suc, drop-drop, Option-cases, arith,
}
use mathlib.Core.Path.{ap₂}
use mathlib.Core.List.{append-nil, append_assoc, map-append}
use ferrisetw.Tdh.Property.{Property}
use ferrisetw.Record.{EventRecord, PropertySlice, Externals, Schema}
use ferrisetw.Parser.Result.{ok, >>=-eq-ok}
use ferrisetw.Parser.Cache.{
  CachedSlices, property_values_start, create, parse_next_property, push_slice, parse_from,
}

abbrev pub buffers : List PropertySlice → List ℕ
buffers [] = []
buffers (s ∷ ss) = s.buffer ++ buffers ss

abbrev pub properties_of : List PropertySlice → List Property
properties_of = map λ s. s.property

abbrev pub after_push : CachedSlices → Property → ℕ → List ℕ → CachedSlices
after_push c p size buffer = record c {
  slices = c.slices ++ (record { property = p; buffer = buffer }) ∷ [];
  last_cached_offset = c.last_cached_offset + size;
}

module _ (x : Externals) (r : EventRecord) (properties : List Property) where
  -- What one successful round of the walk did.
  pub record Parsed (c c' : CachedSlices) : Type 0 where
    pub prop : Property
    pub start : ℕ
    pub buffer : List ℕ
    pub expected : get_elem? properties (length c.slices) ≡ some prop
    pub started : c.data_start ≡ some start
    pub within : start + c.last_cached_offset + length buffer ≤ length r.user_buffer
    pub located : buffer ≡ take (length buffer) (drop (start + c.last_cached_offset) r.user_buffer)
    pub after : c' ≡ after_push c prop (length buffer) buffer

  push_slice-after :
      (c c' : CachedSlices) (p : Property) (size : ℕ) (remaining : List ℕ)
      → push_slice x r properties c p size remaining ≡ ok c'
      → (size ≤ length remaining) × (c' ≡ after_push c p size (take size remaining))
  unfolding push_slice get_to
  push_slice-after c c' p size remaining h = ground arith

  pushed-Parsed :
      (c c' : CachedSlices) (p : Property) (start size : ℕ)
      → get_elem? properties (length c.slices) ≡ some p
      → c.data_start ≡ some start
      → start + c.last_cached_offset ≤ length r.user_buffer
      → let remaining = drop (start + c.last_cached_offset) r.user_buffer in
        (size ≤ length remaining) × (c' ≡ after_push c p size (take size remaining)) → Parsed c c'
  pushed-Parsed c c' p start size e s fits (within, pushed) =
      let remaining = drop (start + c.last_cached_offset) r.user_buffer in
      let len : length (take size remaining) ≡ size = omega (arith, length-take size remaining) in
      record {
        prop = p;
        start = start;
        buffer = take size remaining;
        expected = e;
        started = s;
        within = omega (arith, len, length-drop (start + c.last_cached_offset) r.user_buffer);
        located = ap (λ (n : ℕ). take n remaining) (sym len);
        after = pushed ∙ ap (λ (n : ℕ). after_push c p n (take size remaining)) (sym len);
      }

  parse_from-Parsed :
      (c c' : CachedSlices) (p : Property) (start : ℕ)
      → get_elem? properties (length c.slices) ≡ some p
      → c.data_start ≡ some start
      → parse_from x r properties c p start ≡ ok c'
      → Parsed c c'
  unfolding parse_from get_from
  parse_from-Parsed c c' p start e s h =
      elim (get_from-cases (start + c.last_cached_offset) r.user_buffer) [
        | inl out ↦ cc (rw (out, parse_from) at h)
        | inr (fits, eq) ↦
            let (size, _, pushed) =
              >>=-eq-ok _ (λ (n : ℕ). push_slice x r properties c p n _)
                (rw (eq, parse_from) at h) in
            pushed-Parsed c c' p start size e s fits (push_slice-after c c' p size _ pushed)
      ]

  -- A successful round of the walk takes the next property of the schema and the bytes that follow
  -- those of the ones before it.
  pub parse_next-Parsed :
      (c c' : CachedSlices) → parse_next_property x r properties c ≡ ok c' → Parsed c c'
  unfolding parse_next_property
  parse_next-Parsed c c' h = elim (Option-cases (get_elem? properties (length c.slices))) [
    | inl e ↦ cc (rw (e, parse_next_property) at h)
    | inr (p, e) ↦ elim (Option-cases c.data_start) [
      | inl s ↦ cc (rw (e, s, parse_next_property) at h)
      | inr (start, s) ↦ parse_from-Parsed c c' p start e s (rw (e, s, parse_next_property) at h)
    ]
  ]

-- Where the walk has got to: nothing is located in an event whose layout is not supported; else the
-- located buffers are, one after the other, the first bytes of the values.
abbrev pub IsLaidFrom : EventRecord → Option ℕ → List PropertySlice → ℕ → Type 0
IsLaidFrom r none ss offset = (ss ≡ []) × (offset ≡ 0)
IsLaidFrom r (some start) ss offset =
    (buffers ss ≡ take offset (drop start r.user_buffer)) × (start + offset ≤ length r.user_buffer)

pub record IsLaid (r : EventRecord) (properties : List Property) (c : CachedSlices) : Type 0 where
  pub order : properties_of c.slices ≡ take (length c.slices) properties
  pub bytes : IsLaidFrom r c.data_start c.slices c.last_cached_offset

property_values_start-cases :
    (r : EventRecord) (s : Schema)
    → (property_values_start r s ≡ none) ⊎ (property_values_start r s ≡ some 0)
unfolding property_values_start
property_values_start-cases r s = ground arith

pub create-IsLaid : (r : EventRecord) (s : Schema) → IsLaid r s.properties (create r s)
unfolding create
create-IsLaid r s = record {
  order = refl;
  bytes = elim (property_values_start-cases r s) [
    | inl e ↦ rw e (refl, refl)
    | inr e ↦ rw e (refl, omega arith)
  ];
}

buffers-append :
    (ss : List PropertySlice) (s : PropertySlice) → buffers (ss ++ s ∷ []) ≡ buffers ss ++ s.buffer
buffers-append [] s = append-nil s.buffer
buffers-append (t ∷ ss) s =
    rw (buffers-append ss s) (sym (append_assoc t.buffer (buffers ss) s.buffer))

order-push :
    (properties : List Property) (ss : List PropertySlice) (s : PropertySlice)
    → get_elem? properties (length ss) ≡ some s.property
    → properties_of ss ≡ take (length ss) properties
    → properties_of (ss ++ s ∷ []) ≡ take (length (ss ++ s ∷ [])) properties
order-push properties ss s next e =
    map-append _ ss (s ∷ [])
    ∙ ap (λ (ps : List Property). ps ++ s.property ∷ []) e
    ∙ sym (take-suc (length ss) properties s.property next)
    ∙ ap (λ (n : ℕ). take n properties) longer
  where
    longer : suc (length ss) ≡ length (ss ++ s ∷ [])
    longer = omega (arith, length-append ss (s ∷ []))

bytes-push :
    (r : EventRecord) (start offset : ℕ) (ss : List PropertySlice) (s : PropertySlice)
    → IsLaidFrom r (some start) ss offset
    → s.buffer ≡ take (length s.buffer) (drop (start + offset) r.user_buffer)
    → start + offset + length s.buffer ≤ length r.user_buffer
    → IsLaidFrom r (some start) (ss ++ s ∷ []) (offset + length s.buffer)
bytes-push r start offset ss s (e, fits) located within = (joined, omega arith)
  where
    joined : buffers (ss ++ s ∷ []) ≡ take (offset + length s.buffer) (drop start r.user_buffer)
    joined =
        buffers-append ss s
        ∙ ap₂ ◌++◌ e
            (located ∙ ap (take (length s.buffer)) (sym (drop-drop start offset r.user_buffer)))
        ∙ sym (take-add offset (length s.buffer) (drop start r.user_buffer))

module _ (x : Externals) (r : EventRecord) (properties : List Property) where
  pub parse_next-IsLaid :
      (c c' : CachedSlices)
      → IsLaid r properties c
      → parse_next_property x r properties c ≡ ok c'
      → IsLaid r properties c'
  parse_next-IsLaid c c' laid h =
      let done = parse_next-Parsed x r properties c c' h in
      let s : PropertySlice = record { property = done.prop; buffer = done.buffer } in
      let from : IsLaidFrom r (some done.start) c.slices c.last_cached_offset =
        subst (λ o. IsLaidFrom r o c.slices c.last_cached_offset) done.started laid.bytes in
      subst (IsLaid r properties) (sym done.after) (record {
        order = order-push properties c.slices s done.expected laid.order;
        bytes =
            subst
              (λ o. IsLaidFrom r o (c.slices ++ s ∷ []) (c.last_cached_offset + length done.buffer))
              (sym done.started)
              (bytes-push r done.start c.last_cached_offset c.slices s from done.located
                done.within);
      })
