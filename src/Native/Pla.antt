-- ===== src/Native/Pla.antt =====
-- src/native/pla.rs: the GUID of a provider by its name. COM is a parameter: what it answers to each
-- call of a lookup. A name is the list of its characters, a GUID and an error of COM are numbers.
-- Child: Lookup (proofs).
pub mod Lookup
use ferrisetw.Base.{
  ℕ, zero, suc, ◌-◌, ℤ, pos, negsuc, Bool, true, false, ◌&&◌, Option, none, some, List, [], ◌∷◌,
  ◌==◌, if◌then◌else◌,
}
use ferrisetw.Native.Windows.{Result, ok, err}
use ferrisetw.Query.{from_utf16_lossy}

pub data PlaError : Type 0 where
  not_found : PlaError
  com_error : ℕ → PlaError

-- The interface of a collection of providers, whose items have indices from 0.
pub record Com : Type 0 where
  pub initialize : Result ℕ (Unit {0})
  pub create_instance : Result ℕ (Unit {0})
  pub get_trace_data_providers : Result ℕ (Unit {0})
  pub count : Result ℕ ℤ
  pub get_item : ℕ → Result ℕ (Unit {0})
  pub display_name : ℕ → Result ℕ (List ℕ)
  pub guid : ℕ → Result ℕ ℕ

-- `?`
infixl 5 ◌>>?◌
abbrev pub ◌>>?◌ : {A B : Type 0} → Result ℕ A → (A → Result PlaError B) → Result PlaError B
(ok a) >>? f = f a
(err e) >>? f = err (com_error e)

-- `u32::try_from` of an `i32`, or 0.
abbrev pub to_u32 : ℤ → ℕ
to_u32 (pos n) = n
to_u32 (negsuc n) = 0

abbrev pub same_text : List ℕ → List ℕ → Bool
same_text [] [] = true
same_text [] (y ∷ ys) = false
same_text (x ∷ xs) [] = false
same_text (x ∷ xs) (y ∷ ys) = (x == y) && same_text xs ys

-- The loop, from an index on with `left` items left: the index after it, and the GUID.
unfoldable pub find_from : Com → List ℕ → (left index : ℕ) → Result PlaError (ℕ × Option ℕ)
find_from api name zero index = ok (index, none)
find_from api name (suc left) index =
    let rest = find_from api name left (suc index) in
    api.get_item index >>? (λ item. api.display_name index >>? (λ raw_name.
      if same_text (from_utf16_lossy raw_name) name
      then api.guid index >>? (λ guid. ok (suc index, some guid))
      else rest))

-- The end of the function; `none` is the panic of `unwrap`.
abbrev pub unwrap_guid : ℕ → Result PlaError (ℕ × Option ℕ) → Result PlaError (Option ℕ)
unwrap_guid count (err e) = err e
unwrap_guid count (ok (index, guid)) = if index == count then err not_found else ok guid

unfoldable pub find_provider_guid : Com → List ℕ → Result PlaError (Option ℕ)
unfolding find_from
find_provider_guid api name = api.create_instance >>? (λ all_providers.
    api.get_trace_data_providers >>? (λ filled.
      api.count >>? (λ count. unwrap_guid (to_u32 count) (find_from api name (to_u32 count) 0))))

-- `CoUninitialize` after the search, which a panic skips.
abbrev pub uninitialize : Result PlaError (Option ℕ) → ℕ → ℕ
uninitialize (ok none) initialized = initialized
uninitialize (ok (some guid)) initialized = initialized - 1
uninitialize (err e) initialized = initialized - 1

abbrev pub with_com :
    Result ℕ (Unit {0}) → Result PlaError (Option ℕ) → ℕ → Result PlaError (Option ℕ) × ℕ
with_com (err e) result initialized = (err (com_error e), initialized)
with_com (ok t) result initialized = (result, uninitialize result (suc initialized))

-- `initialized` counts the initializations of COM on the thread that are not undone yet.
unfoldable pub get_provider_guid : Com → List ℕ → (initialized : ℕ) → Result PlaError (Option ℕ) × ℕ
unfolding find_provider_guid
get_provider_guid api name initialized =
    with_com api.initialize (find_provider_guid api name) initialized
