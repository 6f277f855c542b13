-- ===== src/Ser/Struct.antt =====
-- src/ser.rs: `member_buffer`, `StructSer`, `StructArraySer`, `ser_property`,
-- `resolve_struct_count`, `null_entry` and `EventSer`. The serializer is one that accepts every
-- entry and builds a tree; the message of an error that the code raises is not kept, so that an
-- error is `none`. The parser's cache is passed along, as its `RefCell` shares it.
use ferrisetw.Base.{
  ℕ, zero, suc, ◌+◌, String, Bool, Option, none, some, List, [], ◌∷◌, if◌then◌else◌, length, take,
  get_elem?, get_to, get_from, get_range,
}
use ferrisetw.Tdh.Lengths.{PropertyCount, index_value_from_bytes}
use ferrisetw.Tdh.Property.{
  Property, PropertyInfo, Members, property, value, array, struct, struct_array, unsupported, nil,
  cons, name, to_list,
}
use ferrisetw.Record.{EventRecord, Externals, Schema, PropertySlice, pointer_size}
use ferrisetw.Parser.Result.{ok, err, and_then}
use ferrisetw.Parser.Cache.{CachedSlices, create, property_bytes_at}
use ferrisetw.Ser.Size.{member_size}
use ferrisetw.Ser.Handlers.{Leaf, get_parser, ser_from_bytes}

mutual
  pub data Json : Type 0 where
    null : Json
    leaf : Leaf → Json
    object : Entries → Json
    sequence : Elements → Json

  pub data Entries : Type 0 where
    done : Entries
    entry : String → Json → Entries → Entries

  pub data Elements : Type 0 where
    stop : Elements
    element : Json → Elements → Elements

abbrev pub nulls : List Property → Entries
nulls [] = done
nulls (p ∷ ps) = entry (name p) null (nulls ps)

abbrev pub null_elements : ℕ → Elements
null_elements zero = stop
null_elements (suc n) = element null (null_elements n)

abbrev pub Serialized : Type 0 → Type 0
Serialized A = Option (A × CachedSlices)

abbrev pub then_with :
    {A B : Type 0} → Serialized A → (A → CachedSlices → Serialized B) → Serialized B
then_with none f = none
then_with (some (a, c)) f = f a c

abbrev pub wrap : {A B : Type 0} → (A → B) → Serialized A → Serialized B
wrap f m = then_with m (λ a c. some (f a, c))

-- The bytes of the slices before a position: where the next one starts in the user buffer.
abbrev pub start_of : List PropertySlice → ℕ
start_of [] = 0
start_of (s ∷ slices) = length s.buffer + start_of slices

-- `let Some(a) = m else { .. }`
unfoldable pub some_or : {A B : Type 0} → Option A → B → (A → B) → B
some_or none b f = b
some_or (some a) b f = f a

module _ (x : Externals) (r : EventRecord) where
  -- The member's bytes and the offset after them.
  unfoldable pub member_buffer : Property → List ℕ → ℕ → Option (List ℕ × ℕ)
  unfolding get_from get_to member_size
  member_buffer p bytes offset = and_then (get_from offset bytes) (λ remaining.
      and_then (member_size x (pointer_size r) p remaining)
        (λ size. and_then (get_to size remaining) (λ buffer. some (buffer, offset + size))))

  unfoldable pub element_end : Members → List ℕ → ℕ → Option ℕ
  unfolding member_buffer
  element_end nil bytes offset = some offset
  element_end (cons p ms) bytes offset = elim (member_buffer p bytes offset) [
    | none ↦ none
    | some (buffer, next) ↦ element_end ms bytes next
  ]

  module _ (properties : List Property) where
    -- A count by reference is the value of a top-level property.
    unfoldable pub resolve_struct_count : PropertyCount → CachedSlices → Option ℕ × CachedSlices
    unfolding property_bytes_at
    resolve_struct_count (PropertyCount.count n) c = (some n, c)
    resolve_struct_count (PropertyCount.index i) c = elim (get_elem? properties i) [
      | none ↦ (none, c)
      | some p ↦
          let (found, c') = property_bytes_at x r properties i c in
          elim found [ err e ↦ (none, c') | ok buffer ↦ (index_value_from_bytes buffer, c') ]
    ]

    -- `strict` is the option `fail_unimplemented`.
    module _ (strict : Bool) where
      abbrev pub degrade : CachedSlices → Serialized Json
      degrade c = if strict then none else some (null, c)

      -- The part of `ser_property` after the structures.
      unfoldable pub ser_leaf : PropertyInfo → ℕ → List ℕ → CachedSlices → Serialized Json
      ser_leaf i address buffer c = elim (get_parser i) [
        | none ↦ degrade c
        | some h ↦ elim (ser_from_bytes x r h i address buffer) [
          | err e ↦ degrade c
          | ok v ↦ some (leaf v, c)
        ]
      ]

      -- `StructArraySer::serialize` from the element at `offset` on, `n` elements before the end.
      -- `ser` serializes the members of one element, found at an address.
      unfoldable pub ser_elements :
          Members
          → (ℕ → List ℕ → CachedSlices → Serialized Entries)
          → ℕ
          → ℕ
          → List ℕ
          → ℕ
          → CachedSlices
          → Serialized Elements
      unfolding element_end get_range some_or
      ser_elements members ser zero address bytes offset c = some (stop, c)
      ser_elements members ser (suc n) address bytes offset c =
          some_or (element_end members bytes offset) (some (null_elements (suc n), c)) (λ end.
            some_or (get_range offset end bytes) none (λ element_bytes.
              then_with (ser (address + offset) element_bytes c) (λ entries c'.
                wrap (element (object entries)) (ser_elements members ser n address bytes end c'))))

      unfoldable mutual
        unfolding ser_leaf ser_elements member_buffer resolve_struct_count some_or

        -- The value that `ser_property` writes for a property whose bytes are `buffer`.
        pub ser_property : Property → ℕ → List ℕ → CachedSlices → Serialized Json
        ser_property (property n i) address buffer c = ser_info i address buffer c

        pub ser_info : PropertyInfo → ℕ → List ℕ → CachedSlices → Serialized Json
        ser_info (struct members) address buffer c =
            wrap object (ser_members members address buffer 0 c)
        ser_info (struct_array members n) address buffer c =
            let (resolved, c') = resolve_struct_count n c in
            some_or resolved (degrade c') (λ k.
              wrap sequence
                (ser_elements members (λ a b d. ser_members members a b 0 d) k address buffer 0 c'))
        ser_info (value t o l) address buffer c = ser_leaf (value t o l) address buffer c
        ser_info (array t o l n) address buffer c = ser_leaf (array t o l n) address buffer c
        ser_info (unsupported l) address buffer c = ser_leaf (unsupported l) address buffer c

        -- `StructSer::serialize` from the member at `offset` on.
        pub ser_members : Members → ℕ → List ℕ → ℕ → CachedSlices → Serialized Entries
        ser_members nil address bytes offset c = some (done, c)
        ser_members (cons p ms) address bytes offset c =
            some_or (member_buffer p bytes offset) (some (nulls (p ∷ to_list ms), c))
              (λ (buffer, next).
                then_with (ser_property p (address + offset) buffer c)
                  (λ j c'. wrap (entry (name p) j) (ser_members ms address bytes next c')))

      -- `EventSer::serialize` from the property at `index` on; `address` is that of the user buffer.
      unfoldable pub ser_properties : ℕ → List Property → ℕ → CachedSlices → Serialized Entries
      unfolding property_bytes_at ser_property
      ser_properties address [] index c = some (done, c)
      ser_properties address (p ∷ ps) index c =
          let (found, c') = property_bytes_at x r properties index c in
          elim found [
            | err e ↦ if strict then none else some (nulls (p ∷ ps), c')
            | ok buffer ↦
                then_with (ser_property p (address + start_of (take index c'.slices)) buffer c')
                  (λ j c''. wrap (entry (name p) j) (ser_properties address ps (suc index) c''))
          ]

  -- `EventSerializer::new` and the `Event` field of its output.
  unfoldable pub ser_event : Schema → Bool → ℕ → Option Entries
  unfolding ser_properties create
  ser_event s strict address =
      elim (ser_properties s.properties strict address s.properties 0 (create r s)) [
        | none ↦ none
        | some (entries, c) ↦ some entries
      ]
