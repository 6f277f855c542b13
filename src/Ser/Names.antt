-- ===== src/Ser/Names.antt =====
-- src/ser.rs: the entries that the serializer writes.
use ferrisetw.Base.{
  ℕ, zero, suc, ◌≡◌, refl, sym, ap, ◌∙◌, ◌⊎◌, inl, inr, String, Bool, true, false, Option, none,
  some, List, [], ◌∷◌, map, Option-cases, if◌then◌else◌,
}
use ferrisetw.Tdh.Property.{Property, Members, nil, cons, name, to_list}
use ferrisetw.Record.{EventRecord, Externals, Schema}
use ferrisetw.Parser.Result.{ParserResult-cases}
use ferrisetw.Parser.Cache.{CachedSlices, create, property_bytes_at}
use ferrisetw.Ser.Struct.{
  Json, Entries, Elements, done, entry, stop, element, nulls, null_elements, Serialized, then_with,
  wrap, member_buffer, ser_members, ser_properties, ser_event, some_or,
}
use mathlib.Core.Option.{some_inj}

abbrev pub entry_names : Entries → List String
entry_names done = []
entry_names (entry n j es) = n ∷ entry_names es

abbrev pub count_elements : Elements → ℕ
count_elements stop = 0
count_elements (element j es) = suc (count_elements es)

pub nulls-names : (ps : List Property) → entry_names (nulls ps) ≡ map name ps
nulls-names [] = refl
nulls-names (p ∷ ps) = rw (nulls-names ps) refl

null_elements-count : (n : ℕ) → count_elements (null_elements n) ≡ n
null_elements-count zero = refl
null_elements-count (suc n) = ap suc (null_elements-count n)

then_with-inv :
    {A B : Type 0} (m : Serialized A) (f : A → CachedSlices → Serialized B) (b : B × CachedSlices)
    → then_with m f ≡ some b
    → (a : A) × (c : CachedSlices) × (m ≡ some (a, c)) × (f a c ≡ some b)
then_with-inv none f b e = cc
then_with-inv (some (a, c)) f b e = (a, c, refl, e)

wrap-inv :
    {A B : Type 0} (g : A → B) (m : Serialized A) (b : B) (d : CachedSlices)
    → wrap g m ≡ some (b, d)
    → (a : A) × (m ≡ some (a, d)) × (g a ≡ b)
wrap-inv g none b d e = cc
wrap-inv g (some (a, c)) b d e =
    (a, ap (λ c. some (a, c)) (ap (λ t. t.1) (some_inj.0 e)), ap (λ t. t.0) (some_inj.0 e))

pub some_or-inv :
    {A B : Type 0} (m : Option A) (b : B) (f : A → B) (b' : B)
    → some_or m b f ≡ b'
    → (b ≡ b') ⊎ ((a : A) × (m ≡ some a) × (f a ≡ b'))
unfolding some_or
some_or-inv none b f b' e = inl e
some_or-inv (some a) b f b' e = inr (a, refl, e)

some_fst :
    {A B : Type 0} {a a' : A} {b b' : B}
    → ◌≡◌ {A = Option (A × B)} (some (a, b)) (some (a', b'))
    → a ≡ a'
some_fst e = ap (λ t. t.0) (some_inj.0 e)

-- Inversion of an entry that is followed by the rest of a map.
entry-inv :
    (n : String) (m : Serialized Json) (rest : CachedSlices → Serialized Entries) (es : Entries)
    (d : CachedSlices)
    → then_with m (λ j c. wrap (entry n j) (rest c)) ≡ some (es, d)
    → (j : Json) × (es' : Entries) × (c : CachedSlices) × (rest c ≡ some (es', d))
      × (entry n j es' ≡ es)
entry-inv n m rest es d e =
    let (j, c, f, g) = then_with-inv m _ _ e in
    let (es', h, k) = wrap-inv (entry n j) (rest c) es d g in (j, es', c, h, k)

lenient_some :
    {A : Type 0} (strict : Bool) (a b : A) (c d : CachedSlices)
    → if◌then◌else◌ {A = Serialized A} strict none (some (a, c)) ≡ some (b, d)
    → a ≡ b
lenient_some true a b c d e = cc
lenient_some false a b c d e = some_fst e

module _ (x : Externals) (r : EventRecord) (properties : List Property) (strict : Bool) where
  -- Whatever the bytes, a serialized structure has one entry for each member, in their order.
  pub ser_members-names :
      (ms : Members) (address : ℕ) (bytes : List ℕ) (offset : ℕ) (c : CachedSlices) (es : Entries)
      (c' : CachedSlices)
      → ser_members x r properties strict ms address bytes offset c ≡ some (es, c')
      → entry_names es ≡ map name (to_list ms)
  unfolding ser_members
  ser_members-names nil address bytes offset c es c' e = rw (sym (some_fst e)) refl
  ser_members-names (cons p ms) address bytes offset c es c' e =
      elim (some_or-inv (member_buffer x r p bytes offset) _ _ _ e)
        as (λ h. entry_names es ≡ map name (to_list (cons p ms))) [
          | inl f ↦ rw (sym (some_fst f)) (nulls-names (p ∷ to_list ms))
          | inr ((buffer, next), f, g) ↦
              let (j, es', d, h, k) =
                entry-inv (name p) _ (ser_members x r properties strict ms address bytes next) es c'
                  g in
              rw (sym k)
                (ap (λ ns. name p ∷ ns) (ser_members-names ms address bytes next d es' c' h))
        ]

  -- The same of the top-level properties of an event, however the lookups end.
  ser_properties-names :
      (address : ℕ) (ps : List Property) (index : ℕ) (c : CachedSlices) (es : Entries)
      (c' : CachedSlices)
      → ser_properties x r properties strict address ps index c ≡ some (es, c')
      → entry_names es ≡ map name ps
  unfolding ser_properties
  ser_properties-names address [] index c es c' e = rw (sym (some_fst e)) refl
  ser_properties-names address (p ∷ ps) index c es c' e =
      elim (ParserResult-cases (property_bytes_at x r properties index c).0)
        as (λ h. entry_names es ≡ map name (p ∷ ps)) [
          | inl (buffer, f) ↦
              let (j, es', d, h, k) =
                entry-inv (name p) _ (ser_properties x r properties strict address ps (suc index))
                  es c' (rw (f, ser_properties) at e) in
              rw (sym k)
                (ap (λ ns. name p ∷ ns) (ser_properties-names address ps (suc index) d es' c' h))
          | inr (error, f) ↦
              rw (sym (lenient_some strict _ es _ c' (rw (f, ser_properties) at e)))
                (nulls-names (p ∷ ps))
        ]

-- A serialized event has one entry for each property of its schema, in their order, whether the
-- properties could be decoded or not.
pub ser_event-names :
    (x : Externals) (r : EventRecord) (s : Schema) (strict : Bool) (address : ℕ) (es : Entries)
    → ser_event x r s strict address ≡ some es
    → entry_names es ≡ map name s.properties
unfolding ser_event
ser_event-names x r s strict address es e =
    elim (Option-cases (ser_properties x r s.properties strict address s.properties 0 (create r s)))
      as (λ h. entry_names es ≡ map name s.properties) [
        | inl f ↦ cc (rw (f, ser_event) at e)
        | inr ((es', c), f) ↦
            ser_properties-names x r s.properties strict address s.properties 0 (create r s) es c
              (f ∙ ap (λ es. some (es, c)) (some_inj.0 (rw (f, ser_event) at e)))
      ]
