-- ===== src/SchemaLocator/Tests.antt =====
-- Runs of the schema cache, and its theorems at these runs.
use ferrisetw.Base.{ℕ, ◌≡◌, refl, ◌⊎◌, inl, inr, some, [], ◌∷◌, arith}
use ferrisetw.Fixtures.{six}
use ferrisetw.Record.{EventRecord}
use ferrisetw.SchemaLocator.{empty, key_of, lookup, event_schema}
use ferrisetw.SchemaLocator.Cache.{IsCounted}
use ferrisetw.SchemaLocator.Calls.{
  Call, call_all, call_all-IsCounted, call_all-keeps, event_schema_again,
}

abbrev found : EventRecord → ℕ ⊎ ℕ
found event = inr 7

abbrev failed : EventRecord → ℕ ⊎ ℕ
failed event = inl 1168

abbrev one_call : Call
one_call = (found, (six, "name"))

call_all-IsCounted_example : IsCounted (call_all (one_call ∷ one_call ∷ []) empty)
call_all-IsCounted_example = call_all-IsCounted (one_call ∷ one_call ∷ []) empty (refl, omega arith)

first_lookup : lookup (key_of six) "" (call_all (one_call ∷ []) empty) ≡ some 7
unfolding lookup event_schema
first_lookup = refl

call_all-keeps_example :
    lookup (key_of six) "" (call_all (one_call ∷ []) (call_all (one_call ∷ []) empty)) ≡ some 7
call_all-keeps_example =
    call_all-keeps (one_call ∷ []) (call_all (one_call ∷ []) empty) (key_of six) "" 7 first_lookup

first_call : (event_schema found six "name" empty).0 ≡ inr 7
unfolding event_schema
first_call = refl

event_schema_again_example :
    (event_schema failed six "name"
      (call_all (one_call ∷ []) (event_schema found six "name" empty).1)).0
    ≡ inr 7
event_schema_again_example =
    event_schema_again found failed six "name" empty 7 (one_call ∷ []) (omega arith) first_call
