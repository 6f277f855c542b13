-- ===== src/SchemaLocator.antt =====
-- src/schema_locator.rs: `SchemaKey`, `SchemaCache` and `SchemaLocator`. A schema is shared as an
-- `Arc`: it is the address of its allocation.
-- Children: Cache (what one `store` does), Calls (what holds over any sequence of calls).
pub mod Cache
pub mod Calls
mod Tests
use ferrisetw.Base.{
  ℕ, zero, suc, ◌+◌, String, Bool, true, false, ◌&&◌, Option, none, some, List, [], ◌∷◌, ltb, ◌==◌,
  inl, inr, ◌⊎◌, ==_iff, ◌=s=◌, eq_iff, if◌then◌else◌, length, SameKey, find, set, ◌≡◌, ◌↔◌, arith,
  refl,
}
use ferrisetw.Record.{EventRecord}

pub record SchemaKey : Type 0 where
  pub provider : ℕ
  pub id : ℕ
  pub version : ℕ
  pub opcode : ℕ
  pub level : ℕ

-- `SchemaKey::new`
abbrev pub key_of : EventRecord → SchemaKey
key_of event = record {
  provider = event.provider_id;
  id = event.event_id;
  version = event.version;
  opcode = event.opcode;
  level = event.level;
}

abbrev pub same_fields : SchemaKey → SchemaKey → Bool
same_fields j k =
    (j.provider == k.provider)
    && ((j.id == k.id)
        && ((j.version == k.version) && ((j.opcode == k.opcode) && (j.level == k.level))))

same_self : (n : ℕ) → (n == n) ≡ true
same_self n = ground arith

fields_eq :
    (j k : SchemaKey)
    → same_fields j k ≡ true
    → (j.provider ≡ k.provider)
      × (j.id ≡ k.id)
      × (j.version ≡ k.version)
      × (j.opcode ≡ k.opcode)
      × (j.level ≡ k.level)
fields_eq j k e = ground arith

pub same_fields_iff : (j k : SchemaKey) → (same_fields j k ≡ true) ↔ (j ≡ k)
same_fields_iff j k = (
  λ e. let (p, i, v, o, l) = fields_eq j k e in cc,
  λ e.
      rw
        (
          e,
          same_self k.provider,
          same_self k.id,
          same_self k.version,
          same_self k.opcode,
          same_self k.level,
        )
        refl,
)

abbrev pub by_key : SameKey SchemaKey
by_key = record { same = same_fields; same_iff = same_fields_iff }

abbrev pub by_name : SameKey String
by_name = record { same = λ m n. m =s= n; same_iff = eq_iff }

-- The schemas under each descriptor, then each name; `len` is to count them.
pub record SchemaCache : Type 0 where
  pub schemas : List (SchemaKey × List (String × ℕ))
  pub len : ℕ

abbrev pub empty : SchemaCache
empty = record { schemas = []; len = 0 }

abbrev pub max_cached_schemas : ℕ
max_cached_schemas = 4096

abbrev or_default : Option (List (String × ℕ)) → List (String × ℕ)
or_default none = []
or_default (some names) = names

-- The probe of `event_schema`.
unfoldable pub lookup : SchemaKey → String → SchemaCache → Option ℕ
unfolding find
lookup key name c = elim (find by_key key c.schemas) [
  | none ↦ none
  | some names ↦ find by_name name names
]

unfoldable pub store : SchemaKey → String → ℕ → SchemaCache → ℕ × SchemaCache
unfolding find set
store key name built c =
    let names = or_default (find by_key key c.schemas) in
    elim (find by_name name names) [
      | some existing ↦ (existing, record c { schemas = set by_key key names c.schemas })
      | none ↦
          if ltb c.len max_cached_schemas
          then (
            built,
            record {
              schemas = set by_key key (set by_name name built names) c.schemas;
              len = c.len + 1;
            },
          )
          else (built, record c { schemas = set by_key key names c.schemas })
    ]

-- The name that tells events apart: only an event without an id has one. `event_name` is what the
-- metadata of the event gives.
abbrev name_of : EventRecord → String → String
name_of event event_name = if event.event_id == 0 then event_name else ""

-- `build` is the schema that Windows has for an event, or the status of its failure.
unfoldable pub event_schema :
    (EventRecord → ℕ ⊎ ℕ) → EventRecord → String → SchemaCache → (ℕ ⊎ ℕ) × SchemaCache
unfolding lookup store
event_schema build event event_name c =
    let name = name_of event event_name in
    elim (lookup (key_of event) name c) [
      | some s ↦ (inr s, c)
      | none ↦ elim (build event) [
        | inl status ↦ (inl status, c)
        | inr built ↦ let (s, c') = store (key_of event) name built c in (inr s, c')
      ]
    ]
