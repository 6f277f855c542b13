-- ===== src/Ser/Record/Modes.antt =====
-- src/ser.rs: the strict and the lenient serializer.
use ferrisetw.Base.{
  ℕ, ◌≡◌, refl, ap, ◌∙◌, Bool, true, false, ◌&&◌, Option, none, some, List, [], ◌∷◌, map,
  if◌then◌else◌,
}
use ferrisetw.Native.ExtendedData.Items.{ExtType, to_extended_data_item}
use ferrisetw.Record.{EventRecord, Externals, Schema}
use ferrisetw.Ser.Lenient.{ser_event-lenient}
use ferrisetw.Ser.Names.{entry_names}
use ferrisetw.Ser.Record.{
  EventSerializerOptions, EventHeader, SchemaNames, Item, Output, ser_schema, ser_header, ser_item,
  ser_extended, ser_record, push, when,
}
use ferrisetw.Tdh.Property.{name}

abbrev pub Items : Type 0
Items = List (ExtType × Option (List ℕ))

abbrev and_more : Option Item → List Item → List Item
and_more none items = items
and_more (some i) items = i ∷ items

abbrev is_some : {A : Type 0} → Option A → Bool
is_some none = false
is_some (some a) = true

module _ (x : Externals) (is_human_readable : Bool) where
  abbrev written : ExtType → Option (List ℕ) → Option Item
  written ext_type raw = ser_item x is_human_readable (to_extended_data_item x.memchr ext_type raw)

  -- The items that can be written, in their order.
  abbrev pub written_items : Items → List Item
  written_items [] = []
  written_items ((ext_type, raw) ∷ items) = and_more (written ext_type raw) (written_items items)

  -- Whether each item can be written.
  abbrev pub all_written : Items → Bool
  all_written [] = true
  all_written ((ext_type, raw) ∷ items) = is_some (written ext_type raw) && all_written items

  after_lenient :
      (o : Option Item) (rest : Option (List Item)) (items : List Item)
      → rest ≡ some items
      → (elim o [ none ↦ if false then none else rest | some i ↦ push i rest ])
        ≡ some (and_more o items)
  after_lenient none rest items e = e
  after_lenient (some i) rest items e = ap (push i) e

  push_if :
      (i : Item) (b : Bool) (items : List Item)
      → push i (if b then some items else none) ≡ (if b then some (i ∷ items) else none)
  push_if i true items = refl
  push_if i false items = refl

  after_strict :
      (o : Option Item) (rest : Option (List Item)) (b : Bool) (items : List Item)
      → rest ≡ (if b then some items else none)
      → (elim o [ none ↦ if true then none else rest | some i ↦ push i rest ])
        ≡ (if is_some o && b then some (and_more o items) else none)
  after_strict none rest b items e = refl
  after_strict (some i) rest b items e = ap (push i) e ∙ push_if i b items

  ser_extended-lenient :
      (items : Items) → ser_extended x is_human_readable false items ≡ some (written_items items)
  unfolding ser_extended
  ser_extended-lenient [] = refl
  ser_extended-lenient ((ext_type, raw) ∷ items) =
      after_lenient (written ext_type raw) (ser_extended x is_human_readable false items)
        (written_items items) (ser_extended-lenient items)

  ser_extended-strict :
      (items : Items)
      → ser_extended x is_human_readable true items
        ≡ (if all_written items then some (written_items items) else none)
  unfolding ser_extended
  ser_extended-strict [] = refl
  ser_extended-strict ((ext_type, raw) ∷ items) =
      after_strict (written ext_type raw) (ser_extended x is_human_readable true items)
        (all_written items) (written_items items) (ser_extended-strict items)

  -- The extended data of an event: in the lenient mode the items that can be written are written in
  -- their order, and the others are left out; in the strict mode the result is the same if each item
  -- can be written, and an error otherwise.
  pub ser_extended_modes :
      (items : Items)
      → (ser_extended x is_human_readable false items ≡ some (written_items items))
        × (ser_extended x is_human_readable true items
            ≡ (if all_written items then some (written_items items) else none))
  ser_extended_modes items = (ser_extended-lenient items, ser_extended-strict items)

  abbrev optional : {A : Type 0} → Bool → A → Option A
  optional b a = if b then some a else none

  kept :
      {A : Type 0} (b : Bool) (m : Option A) (a : A) → m ≡ some a → when b m ≡ some (optional b a)
  kept false m a e = refl
  kept true m a e = rw e

  -- In the lenient mode every event is serialized, whatever its bytes and its extended data. The
  -- fields Schema, Header and Extended are there as the options say, and Event has one entry for each
  -- property of the schema in their order.
  pub ser_record-lenient :
      (o : EventSerializerOptions)
      → o.fail_unimplemented ≡ false
      → (names : SchemaNames) (h : EventHeader) (items : Items) (r : EventRecord) (s : Schema)
        (address : ℕ)
      → (out : Output) × (ser_record x is_human_readable o names h items r s address ≡ some out)
        × (out.schema ≡ optional o.include_schema (ser_schema names))
        × (out.header ≡ optional o.include_header (ser_header x is_human_readable h))
        × (out.extended ≡ optional o.include_extended_data (written_items items))
        × (entry_names out.event ≡ map name s.properties)
  unfolding ser_record
  ser_record-lenient o lenient names h items r s address =
      let (es, e, ns) = ser_event-lenient x r s address in
      let items_written =
        kept o.include_extended_data (ser_extended x is_human_readable false items)
          (written_items items) (ser_extended-lenient items) in
      (
        record {
          schema = optional o.include_schema (ser_schema names);
          header = optional o.include_header (ser_header x is_human_readable h);
          extended = optional o.include_extended_data (written_items items);
          event = es;
        },
        rw (lenient, e, items_written),
        refl,
        refl,
        refl,
        ns,
      )
