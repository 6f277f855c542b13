-- ===== src/SchemaLocator/Cache.antt =====
-- src/schema_locator.rs: what one `store` does to the cache.
use ferrisetw.Base.{
  ℕ, suc, ◌+◌, ◌≤◌, ◌<◌, ◌≡◌, refl, sym, ap, ◌∙◌, inl, inr, String, none, some, List, [], ◌∷◌, ltb,
  lt→ltb, ltb→lt, length, find, set, find-set, find-set_other, Bool-cases, Option-cases, arith,
}
use ferrisetw.SchemaLocator.{
  SchemaKey, SchemaCache, by_key, by_name, max_cached_schemas, or_default, lookup, store,
}

abbrev pub count : List (SchemaKey × List (String × ℕ)) → ℕ
count [] = 0
count ((k, names) ∷ m) = length names + count m

-- `len` counts the schemas, of which there are at most `max_cached_schemas`.
abbrev pub IsCounted : SchemaCache → Type 0
IsCounted c = (c.len ≡ count c.schemas) × (c.len ≤ max_cached_schemas)

count-set :
    (k : SchemaKey) (names : List (String × ℕ)) (m : List (SchemaKey × List (String × ℕ)))
    → count (set by_key k names m) + length (or_default (find by_key k m)) ≡ count m + length names
unfolding find set
count-set k names [] = omega arith
count-set k names ((j, old) ∷ m) = elim (Bool-cases (by_key.same j k)) [
  | inl e ↦ rw (e) (omega arith)
  | inr e ↦ let rest = count-set k names m in rw (e) (omega arith)
]

length-set :
    (n : String) (s : ℕ) (names : List (String × ℕ))
    → find by_name n names ≡ none
    → length (set by_name n s names) ≡ suc (length names)
unfolding find set
length-set n s [] e = refl
length-set n s ((m, t) ∷ names) e = elim (Bool-cases (by_name.same m n)) [
  | inl f ↦ cc (rw (f) at e)
  | inr f ↦ rw (f) (ap suc (length-set n s names (rw (f) at e)))
]

pub store-IsCounted :
    (k : SchemaKey) (n : String) (s : ℕ) (c : SchemaCache)
    → IsCounted c
    → IsCounted (store k n s c).1
unfolding store
store-IsCounted k n s c (counted, bounded) =
    let names = or_default (find by_key k c.schemas) in
    let kept = count-set k names c.schemas in
    elim (Option-cases (find by_name n names)) [
      | inr (existing, f) ↦ rw (f, store) (omega arith, bounded)
      | inl f ↦ elim (Bool-cases (ltb c.len max_cached_schemas)) [
        | inl e ↦
            let grown = count-set k (set by_name n s names) c.schemas in
            let one = length-set n s names f in
            let room = ltb→lt c.len max_cached_schemas e in
            rw (f, e, store) (omega arith, omega arith)
        | inr e ↦ rw (f, e, store) (omega arith, bounded)
      ]
    ]

pub store-lookup :
    (k : SchemaKey) (n : String) (s : ℕ) (c : SchemaCache)
    → c.len < max_cached_schemas
    → lookup k n (store k n s c).1 ≡ some (store k n s c).0
unfolding lookup store
store-lookup k n s c room =
    let names = or_default (find by_key k c.schemas) in
    elim (Option-cases (find by_name n names)) [
      | inr (existing, f) ↦ rw (f, find-set by_key k names c.schemas, f, lookup, store) refl
      | inl f ↦
          rw
            (
              f,
              lt→ltb c.len max_cached_schemas room,
              find-set by_key k (set by_name n s names) c.schemas,
              find-set by_name n s names,
              lookup,
              store,
            )
            refl
    ]

lookup-names :
    (k : SchemaKey) (n : String) (s : ℕ) (c : SchemaCache)
    → lookup k n c ≡ some s
    → find by_name n (or_default (find by_key k c.schemas)) ≡ some s
unfolding lookup
lookup-names k n s c e = elim (Option-cases (find by_key k c.schemas)) [
  | inl f ↦ cc (rw (f, lookup) at e)
  | inr (names, f) ↦ rw (f) (rw (f, lookup) at e)
]

set-keeps :
    (j k : SchemaKey) (m : String) (s len : ℕ) (names : List (String × ℕ)) (c : SchemaCache)
    → lookup j m c ≡ some s
    → (k ≡ j → find by_name m names ≡ some s)
    → lookup j m (record { schemas = set by_key k names c.schemas; len = len }) ≡ some s
unfolding lookup
set-keeps j k m s len names c e same_names = elim (Bool-cases (by_key.same k j)) [
  | inl f ↦
      let same : k ≡ j = (by_key.same_iff k j).0 f in
      let here : find by_key j (set by_key k names c.schemas) ≡ some names =
        ap (λ i. find by_key i (set by_key k names c.schemas)) (sym same)
        ∙ find-set by_key k names c.schemas in
      rw (here, lookup) (same_names same)
  | inr f ↦ rw (find-set_other by_key j k names c.schemas f, lookup) e
]

pub store-keeps :
    (j k : SchemaKey) (m n : String) (s t : ℕ) (c : SchemaCache)
    → lookup j m c ≡ some s
    → lookup j m (store k n t c).1 ≡ some s
unfolding store
store-keeps j k m n s t c e =
    let names = or_default (find by_key k c.schemas) in
    let old : k ≡ j → find by_name m names ≡ some s = λ same.
      ap (λ i. find by_name m (or_default (find by_key i c.schemas))) same
      ∙ lookup-names j m s c e in
    elim (Option-cases (find by_name n names)) [
      | inr (existing, f) ↦ rw (f, store) (set-keeps j k m s c.len names c e old)
      | inl f ↦ elim (Bool-cases (ltb c.len max_cached_schemas)) [
        | inr g ↦ rw (f, g, store) (set-keeps j k m s c.len names c e old)
        | inl g ↦
            rw (f, g, store)
              (set-keeps j k m s (c.len + 1) (set by_name n t names) c e (λ same.
                elim (Bool-cases (by_name.same n m)) [
                  | inl h ↦ cc (
                    sym (ap (λ i. find by_name i names) ((by_name.same_iff n m).0 h)) ∙ f,
                    old same,
                  )
                  | inr h ↦ find-set_other by_name m n t names h ∙ old same
                ]))
      ]
    ]
