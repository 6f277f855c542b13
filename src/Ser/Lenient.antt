-- ===== src/Ser/Lenient.antt =====
-- src/ser.rs: the lenient mode (`fail_unimplemented` unset) degrades entries and never fails.
use ferrisetw.Base.{
  ℕ, zero, suc, ◌+◌, ◌≤◌, ◌≡◌, refl, sym, inl, inr, false, Option, none, some, List, [], ◌∷◌, map,
  length, take, get_range, Option-cases, arith,
}
use ferrisetw.Tdh.Property.{
  Property, PropertyInfo, Members, property, value, array, struct, struct_array, unsupported, nil,
  cons, name,
}
use ferrisetw.Record.{EventRecord, Externals, Schema}
use ferrisetw.Parser.Result.{ParserResult-cases}
use ferrisetw.Parser.Cache.{CachedSlices, create, property_bytes_at}
use ferrisetw.Ser.Handlers.{get_parser, ser_from_bytes}
use ferrisetw.Ser.Struct.{
  null, leaf, Entries, Serialized, then_with, wrap, member_buffer, element_end, ser_elements,
  ser_property, ser_info, ser_members, ser_properties, ser_event, ser_leaf, resolve_struct_count,
  some_or, start_of, entry, nulls,
}
use mathlib.Core.Path.{subst}
use ferrisetw.Ser.Bounds.{IsTotal, element_end-bounds, in_bounds_not_none}
use ferrisetw.Ser.Names.{entry_names, ser_event-names}

then_with-IsTotal :
    {A B : Type 0} (m : Serialized A) (f : A → CachedSlices → Serialized B)
    → IsTotal m
    → ((a : A) (c : CachedSlices) → IsTotal (f a c))
    → IsTotal (then_with m f)
then_with-IsTotal m f ((a, c), e) g = subst (λ m. IsTotal (then_with m f)) (sym e) (g a c)

wrap-IsTotal : {A B : Type 0} (g : A → B) (m : Serialized A) → IsTotal m → IsTotal (wrap g m)
wrap-IsTotal g m t = then_with-IsTotal m _ t (λ a c. ((g a, c), refl))

some_or-IsTotal :
    {A B : Type 0} (m : Option A) (b : Option B) (f : A → Option B)
    → (m ≡ none → IsTotal b)
    → ((a : A) → m ≡ some a → IsTotal (f a))
    → IsTotal (some_or m b f)
unfolding some_or
some_or-IsTotal none b f t g = t refl
some_or-IsTotal (some a) b f t g = g a refl

module _ (x : Externals) (r : EventRecord) where
  module _ (properties : List Property) where
    ser_leaf-IsTotal :
        (i : PropertyInfo) (address : ℕ) (buffer : List ℕ) (c : CachedSlices)
        → IsTotal (ser_leaf x r properties false i address buffer c)
    unfolding ser_leaf
    ser_leaf-IsTotal i address buffer c = elim (Option-cases (get_parser i)) [
      | inl f ↦ ((null, c), rw (f, ser_leaf) refl)
      | inr (h, f) ↦ elim (ParserResult-cases (ser_from_bytes x r h i address buffer)) [
        | inl (v, g) ↦ ((leaf v, c), rw (f, g, ser_leaf) refl)
        | inr (e, g) ↦ ((null, c), rw (f, g, ser_leaf) refl)
      ]
    ]

    ser_elements-IsTotal :
        (ms : Members) (ser : ℕ → List ℕ → CachedSlices → Serialized Entries)
        (ser-IsTotal : (a : ℕ) (b : List ℕ) (c : CachedSlices) → IsTotal (ser a b c))
        (n address : ℕ) (bytes : List ℕ) (offset : ℕ) (c : CachedSlices)
        → offset ≤ length bytes
        → IsTotal (ser_elements x r properties false ms ser n address bytes offset c)
    unfolding ser_elements
    ser_elements-IsTotal ms ser t zero address bytes offset c le = (_, refl)
    ser_elements-IsTotal ms ser t (suc n) address bytes offset c le =
        some_or-IsTotal (element_end x r ms bytes offset) _ _ (λ f. (_, refl))
          (λ end e.
            some_or-IsTotal (get_range offset end bytes) _ _
              (λ f. absurd (in_bounds_not_none x r ms bytes offset end le e f))
              (λ element_bytes f. then_with-IsTotal _ _ (t _ _ _) (λ entries d. wrap-IsTotal _ _ (
                ser_elements-IsTotal ms ser t n address bytes end d
                  (element_end-bounds x r ms bytes offset end le e).1))))

    mutual
      unfolding ser_property

      property-IsTotal :
          (p : Property) (address : ℕ) (buffer : List ℕ) (c : CachedSlices)
          → IsTotal (ser_property x r properties false p address buffer c)
      property-IsTotal (property n i) address buffer c = ser_info-IsTotal i address buffer c

      ser_info-IsTotal :
          (i : PropertyInfo) (address : ℕ) (buffer : List ℕ) (c : CachedSlices)
          → IsTotal (ser_info x r properties false i address buffer c)
      ser_info-IsTotal (value t o l) address buffer c =
          ser_leaf-IsTotal (value t o l) address buffer c
      ser_info-IsTotal (array t o l n) address buffer c =
          ser_leaf-IsTotal (array t o l n) address buffer c
      ser_info-IsTotal (unsupported l) address buffer c =
          ser_leaf-IsTotal (unsupported l) address buffer c
      ser_info-IsTotal (struct ms) address buffer c =
          wrap-IsTotal _ _ (ser_members-IsTotal ms address buffer 0 c)
      ser_info-IsTotal (struct_array ms n) address buffer c =
          some_or-IsTotal (resolve_struct_count x r properties n c).0 _ _ (λ f. (_, refl))
            (λ k f. wrap-IsTotal _ _ (
              ser_elements-IsTotal ms _ (λ a b d. ser_members-IsTotal ms a b 0 d) k address buffer 0
                _ (omega arith)))

      ser_members-IsTotal :
          (ms : Members) (address : ℕ) (bytes : List ℕ) (offset : ℕ) (c : CachedSlices)
          → IsTotal (ser_members x r properties false ms address bytes offset c)
      ser_members-IsTotal nil address bytes offset c = (_, refl)
      ser_members-IsTotal (cons p ms) address bytes offset c =
          some_or-IsTotal (member_buffer x r p bytes offset) _ _ (λ f. (_, refl))
            (λ (buffer, next) f.
              then_with-IsTotal _ _ (property-IsTotal p (address + offset) buffer c)
                (λ j d. wrap-IsTotal _ _ (ser_members-IsTotal ms address bytes next d)))

    -- In the lenient mode a property, with everything nested in it, is serialized without an error,
    -- whatever its bytes.
    pub ser_property-IsTotal :
        (p : Property) (address : ℕ) (buffer : List ℕ) (c : CachedSlices)
        → IsTotal (ser_property x r properties false p address buffer c)
    ser_property-IsTotal p address buffer c = property-IsTotal p address buffer c

    ser_properties-IsTotal :
        (address : ℕ) (ps : List Property) (index : ℕ) (c : CachedSlices)
        → IsTotal (ser_properties x r properties false address ps index c)
    unfolding ser_properties
    ser_properties-IsTotal address [] index c = (_, refl)
    ser_properties-IsTotal address (p ∷ ps) index c =
        elim (ParserResult-cases (property_bytes_at x r properties index c).0) [
          | inl (buffer, f) ↦
              let (t, g) =
                then_with-IsTotal _
                  (λ j d.
                    wrap (entry (name p) j)
                      (ser_properties x r properties false address ps (suc index) d))
                  (property-IsTotal p
                    (address
                      + start_of (take index (property_bytes_at x r properties index c).1.slices))
                    buffer (property_bytes_at x r properties index c).1)
                  (λ j d. wrap-IsTotal _ _ (ser_properties-IsTotal address ps (suc index) d)) in
              (t, rw (f, ser_properties) g)
          | inr (e, f) ↦ (
            (nulls (p ∷ ps), (property_bytes_at x r properties index c).1),
            rw (f, ser_properties) refl,
          )
        ]

-- In the lenient mode every event is serialized, whatever its bytes, with one entry for each
-- property of its schema in their order.
pub ser_event-lenient :
    (x : Externals) (r : EventRecord) (s : Schema) (address : ℕ)
    → (es : Entries) × (ser_event x r s false address ≡ some es)
      × (entry_names es ≡ map name s.properties)
unfolding ser_event
ser_event-lenient x r s address =
    let (t, f) = ser_properties-IsTotal x r s.properties address s.properties 0 (create r s) in
    let e : ser_event x r s false address ≡ some t.0 = rw (f, ser_event) refl in
    (t.0, e, ser_event-names x r s false address t.0 e)
