-- ===== src/SchemaLocator/Calls.antt =====
-- src/schema_locator.rs: what the cache keeps over any sequence of calls, one after another.
use ferrisetw.Base.{
  ℕ, ◌<◌, ◌≡◌, refl, ap, ◌∙◌, inl, inr, ◌⊎◌, String, some, List, [], ◌∷◌, Option-cases,
}
use ferrisetw.Record.{EventRecord}
use ferrisetw.SchemaLocator.{
  SchemaKey, SchemaCache, key_of, max_cached_schemas, lookup, store, name_of, event_schema,
}
use ferrisetw.SchemaLocator.Cache.{IsCounted, store-IsCounted, store-lookup, store-keeps}

-- A call that may be made: an event, its name, and what Windows would give for it.
abbrev pub Call : Type 0
Call = (EventRecord → ℕ ⊎ ℕ) × (EventRecord × String)

abbrev pub call_all : List Call → SchemaCache → SchemaCache
call_all [] c = c
call_all ((build, (event, n)) ∷ calls) c = call_all calls (event_schema build event n c).1

⊎-cases : (a : ℕ ⊎ ℕ) → ((s : ℕ) × (a ≡ inl s)) ⊎ ((s : ℕ) × (a ≡ inr s))
⊎-cases (inl s) = inl (s, refl)
⊎-cases (inr s) = inr (s, refl)

inr_eq : (a b : ℕ) → ◌≡◌ {A = ℕ ⊎ ℕ} (inr a) (inr b) → a ≡ b
inr_eq a b e = cc

-- A call leaves the cache alone or stores one schema.
event_schema-cases :
    (build : EventRecord → ℕ ⊎ ℕ) (event : EventRecord) (n : String) (c : SchemaCache)
    → ((event_schema build event n c).1 ≡ c)
      ⊎ ((built : ℕ) × ((event_schema build event n c).1
            ≡ (store (key_of event) (name_of event n) built c).1))
unfolding event_schema
event_schema-cases build event n c =
    elim (Option-cases (lookup (key_of event) (name_of event n) c)) [
      | inr (s, f) ↦ inl (rw (f, event_schema) refl)
      | inl f ↦ elim (⊎-cases (build event)) [
        | inl (status, g) ↦ inl (rw (f, g, event_schema) refl)
        | inr (built, g) ↦ inr (built, rw (f, g, event_schema) refl)
      ]
    ]

-- Whatever events the cache is asked for, in whatever order, it counts its schemas correctly and
-- holds at most 4096 of them.
pub call_all-IsCounted :
    (calls : List Call) (c : SchemaCache) → IsCounted c → IsCounted (call_all calls c)
call_all-IsCounted [] c t = t
call_all-IsCounted ((build, (event, n)) ∷ calls) c t = elim (event_schema-cases build event n c) [
  | inl e ↦ call_all-IsCounted calls _ (rw (e) t)
  | inr (built, e) ↦
      call_all-IsCounted calls _
        (rw (e) (store-IsCounted (key_of event) (name_of event n) built c t))
]

-- A cached schema is never replaced or dropped: whatever calls follow, its key and
-- name still have it.
pub call_all-keeps :
    (calls : List Call) (c : SchemaCache) (k : SchemaKey) (n : String) (s : ℕ)
    → lookup k n c ≡ some s
    → lookup k n (call_all calls c) ≡ some s
call_all-keeps [] c k n s e = e
call_all-keeps ((build, (event, m)) ∷ calls) c k n s e = elim (event_schema-cases build event m c) [
  | inl f ↦ call_all-keeps calls _ k n s (rw (f) e)
  | inr (built, f) ↦
      call_all-keeps calls _ k n s
        (rw (f) (store-keeps k (key_of event) n (name_of event m) s built c e))
]

event_schema-cached :
    (build : EventRecord → ℕ ⊎ ℕ) (event : EventRecord) (n : String) (c : SchemaCache) (s : ℕ)
    → c.len < max_cached_schemas
    → (event_schema build event n c).0 ≡ inr s
    → lookup (key_of event) (name_of event n) (event_schema build event n c).1 ≡ some s
unfolding event_schema
event_schema-cached build event n c s room e =
    elim (Option-cases (lookup (key_of event) (name_of event n) c)) [
      | inr (t, f) ↦ rw (f, event_schema) (f ∙ ap some (inr_eq t s (rw (f, event_schema) at e)))
      | inl f ↦ elim (⊎-cases (build event)) [
        | inl (status, g) ↦ cc (rw (f, g, event_schema) at e)
        | inr (built, g) ↦
            rw (f, g, event_schema)
              (store-lookup (key_of event) (name_of event n) built c room
                ∙ ap some (inr_eq _ s (rw (f, g, event_schema) at e)))
      ]
    ]

-- Two calls for one event get one schema, with any calls in between, if the first one succeeds
-- while the cache has room: the later one does not ask Windows again.
pub event_schema_again :
    (build build' : EventRecord → ℕ ⊎ ℕ) (event : EventRecord) (n : String) (c : SchemaCache)
    (s : ℕ) (calls : List Call)
    → c.len < max_cached_schemas
    → (event_schema build event n c).0 ≡ inr s
    → (event_schema build' event n (call_all calls (event_schema build event n c).1)).0 ≡ inr s
unfolding event_schema
event_schema_again build build' event n c s calls room e =
    let kept =
      call_all-keeps calls (event_schema build event n c).1 (key_of event) (name_of event n) s
        (event_schema-cached build event n c s room e) in
    rw (kept, event_schema) refl
