-- ===== src/Native/Pla/Lookup.antt =====
-- src/native/pla.rs: what a lookup of a provider by its name finds.
use ferrisetw.Base.{
  ℕ, zero, suc, ◌+◌, ◌≡◌, ◌≢◌, refl, sym, subst, ap, ◌∙◌, pos, Bool, true, false, Option, none,
  some, List, [], ◌∷◌, ◌==◌, Bool-cases, inl, inr, if◌then◌else◌, length, get_elem?, arith,
}
use ferrisetw.Native.Pla.{
  PlaError, not_found, com_error, Com, ◌>>?◌, same_text, to_u32, find_from, find_provider_guid,
  unwrap_guid, with_com, get_provider_guid,
}
use ferrisetw.Native.Windows.{Result, ok, err}
use ferrisetw.Query.{from_utf16_lossy}

-- A loop that ends has a GUID or is at the end.
abbrev IsSettled : ℕ → Result PlaError (ℕ × Option ℕ) → Type 0
IsSettled end (err e) = Unit
IsSettled end (ok (index, none)) = index ≡ end
IsSettled end (ok (index, some guid)) = Unit

zero_add : (n : ℕ) → 0 + n ≡ n
zero_add n = omega arith

==_self : (n : ℕ) → (n == n) ≡ true
==_self n = ground arith

-- What holds of every error, and of what follows a success, holds of `?`.
holds_after :
    {A B : Type 0} (P : Result PlaError B → Type 0) (r : Result ℕ A) (f : A → Result PlaError B)
    → ((e : PlaError) → P (err e))
    → ((a : A) → P (f a))
    → P (r >>? f)
holds_after P (ok a) f refused next = next a
holds_after P (err e) f refused next = refused (com_error e)

either-IsSettled :
    (b : Bool) (end : ℕ) (r s : Result PlaError (ℕ × Option ℕ))
    → IsSettled end r
    → IsSettled end s
    → IsSettled end (if b then r else s)
either-IsSettled true end r s x y = x
either-IsSettled false end r s x y = y

find_from-IsSettled :
    (api : Com) (name : List ℕ) (left index : ℕ)
    → IsSettled (index + left) (find_from api name left index)
unfolding find_from
find_from-IsSettled api name zero index = omega arith
find_from-IsSettled api name (suc left) index =
    let end = index + suc left in
    let after = find_from api name left (suc index) in
    let found : Result PlaError (ℕ × Option ℕ) =
      api.guid index >>? (λ guid. ok (suc index, some guid)) in
    let shift : suc index + left ≡ index + suc left = omega arith in
    let rest =
      subst (λ e. IsSettled e after) shift (find_from-IsSettled api name left (suc index)) in
    holds_after (IsSettled end) (api.get_item index) _ (λ e. tt)
      (λ item.
        holds_after (IsSettled end) (api.display_name index) _ (λ e. tt)
          (λ raw_name.
            either-IsSettled (same_text (from_utf16_lossy raw_name) name) end found after
              (holds_after (IsSettled end) (api.guid index) (λ guid. ok (suc index, some guid))
                (λ e. tt) (λ guid. tt))
              rest))

-- COM is initialized as often as before, and the result is no panic.
abbrev pub IsBalanced : ℕ → Result PlaError (Option ℕ) × ℕ → Type 0
IsBalanced initialized (result, after) = (after ≡ initialized) × (result ≢ ok none)

unwrap_guid-IsSettled :
    (count : ℕ) (r : Result PlaError (ℕ × Option ℕ))
    → IsSettled count r
    → unwrap_guid count r ≢ ok none
unwrap_guid-IsSettled count (err e) settled = λ e. cc
unwrap_guid-IsSettled count (ok (index, none)) settled = rw (settled, ==_self count) (λ e. cc)
unwrap_guid-IsSettled count (ok (index, some guid)) settled = elim (Bool-cases (index == count)) [
  | inl t ↦ rw t (λ e. cc)
  | inr f ↦ rw f (λ e. cc)
]

with_com-IsBalanced :
    (opened : Result ℕ (Unit {0})) (r : Result PlaError (Option ℕ)) (initialized : ℕ)
    → r ≢ ok none
    → IsBalanced initialized (with_com opened r initialized)
with_com-IsBalanced (err e) r initialized n = (refl, λ e. cc)
with_com-IsBalanced (ok t) (err e) initialized n = (omega arith, n)
with_com-IsBalanced (ok t) (ok none) initialized n = absurd (n refl)
with_com-IsBalanced (ok t) (ok (some guid)) initialized n = (omega arith, n)

find_provider_guid-settled : (api : Com) (name : List ℕ) → find_provider_guid api name ≢ ok none
unfolding find_provider_guid
find_provider_guid-settled api name =
    let P : Result PlaError (Option ℕ) → Type 0 = λ r. r ≢ ok none in
    let refused : (e : PlaError) → P (err e) = λ e same. cc in
    holds_after P api.create_instance _ refused (λ t.
      holds_after P api.get_trace_data_providers _ refused (λ t.
        holds_after P api.count _ refused (λ count.
          unwrap_guid-IsSettled (to_u32 count) (find_from api name (to_u32 count) 0) (
            subst (λ n. IsSettled n (find_from api name (to_u32 count) 0)) (zero_add (to_u32 count))
              (find_from-IsSettled api name (to_u32 count) 0)))))

-- Whatever COM answers, a lookup undoes its initialization of COM, when that succeeded, exactly
-- once, and the `unwrap` at its end does not panic.
pub get_provider_guid-IsBalanced :
    (api : Com) (name : List ℕ) (initialized : ℕ)
    → IsBalanced initialized (get_provider_guid api name initialized)
unfolding get_provider_guid
get_provider_guid-IsBalanced api name initialized =
    with_com-IsBalanced api.initialize (find_provider_guid api name) initialized
      (find_provider_guid-settled api name)

-- A registered provider: its name in UTF-16 and its GUID.
pub record Registered : Type 0 where
  pub display_name : List ℕ
  pub guid : ℕ

abbrev name_at : Option Registered → Result ℕ (List ℕ)
name_at none = err 0
name_at (some r) = ok r.display_name

abbrev guid_at : Option Registered → Result ℕ ℕ
guid_at none = err 0
guid_at (some r) = ok r.guid

-- A collection of these providers, of which every call succeeds.
abbrev pub collection : List Registered → Com
collection all = record {
  initialize = ok tt;
  create_instance = ok tt;
  get_trace_data_providers = ok tt;
  count = ok (pos (length all));
  get_item = λ i. ok tt;
  display_name = λ i. name_at (get_elem? all i);
  guid = λ i. guid_at (get_elem? all i);
}

abbrev has_name : List ℕ → Registered → Bool
has_name name r = same_text (from_utf16_lossy r.display_name) name

-- The first provider of that name among all but the last.
abbrev pub find_guid : List ℕ → List Registered → Option ℕ
find_guid name [] = none
find_guid name (r ∷ []) = none
find_guid name (r ∷ s ∷ all) =
    let rest = find_guid name (s ∷ all) in if has_name name r then some r.guid else rest

abbrev pub or_not_found : Option ℕ → Result PlaError (Option ℕ)
or_not_found none = err not_found
or_not_found (some guid) = ok (some guid)

-- Where the loop stops in these providers, the first of which has an index.
abbrev stop : List ℕ → ℕ → List Registered → ℕ × Option ℕ
stop name index [] = (index, none)
stop name index (r ∷ all) =
    let rest = stop name (suc index) all in
    if has_name name r then (suc index, some r.guid) else rest

find_from-stop :
    (api : Com) (name : List ℕ) (all : List Registered) (index : ℕ)
    → ((i : ℕ) → api.get_item i ≡ ok tt)
    → ((i : ℕ) → api.display_name (index + i) ≡ name_at (get_elem? all i))
    → ((i : ℕ) → api.guid (index + i) ≡ guid_at (get_elem? all i))
    → find_from api name (length all) index ≡ ok (stop name index all)
unfolding find_from
find_from-stop api name [] index items names guids = refl
find_from-stop api name (r ∷ all) index items names guids =
    let shift : (i : ℕ) → suc index + i ≡ index + suc i = λ i. omega arith in
    let here : index ≡ index + 0 = omega arith in
    let first : api.display_name index ≡ ok r.display_name = ap api.display_name here ∙ names 0 in
    let found : api.guid index ≡ ok r.guid = ap api.guid here ∙ guids 0 in
    let rest =
      find_from-stop api name all (suc index) items
        (λ i. ap api.display_name (shift i) ∙ names (suc i))
        (λ i. ap api.guid (shift i) ∙ guids (suc i)) in
    elim (Bool-cases (has_name name r)) [
      | inl t ↦ rw (items index, first, t, found) refl
      | inr f ↦ rw (items index, first, f, rest) refl
    ]

unwrap_guid-stop :
    (name : List ℕ) (index : ℕ) (all : List Registered)
    → unwrap_guid (index + length all) (ok (stop name index all))
      ≡ or_not_found (find_guid name all)
unwrap_guid-stop name index [] = ground arith
unwrap_guid-stop name index (r ∷ []) = ground arith
unwrap_guid-stop name index (r ∷ s ∷ all) =
    let rest = unwrap_guid-stop name (suc index) (s ∷ all) in
    let shift : suc index + length (s ∷ all) ≡ index + length (r ∷ s ∷ all) = omega arith in
    let more = ap (λ n. unwrap_guid n (ok (stop name (suc index) (s ∷ all)))) (sym shift) ∙ rest in
    let early : (suc index == (index + length (r ∷ s ∷ all))) ≡ false = ground arith in
    elim (Bool-cases (has_name name r)) [ inl t ↦ rw (t, early) refl | inr f ↦ rw f more ]

-- A lookup whose calls succeed gives the GUID of the first provider of that name among all but the
-- last, and is an error when there is none: it does not find a provider that is listed last.
pub get_provider_guid-find_guid :
    (all : List Registered) (name : List ℕ) (initialized : ℕ)
    → (get_provider_guid (collection all) name initialized).0 ≡ or_not_found (find_guid name all)
unfolding get_provider_guid find_provider_guid
get_provider_guid-find_guid all name initialized =
    ap (unwrap_guid (length all)) (
      find_from-stop (collection all) name all 0 (λ i. refl)
        (λ i. ap (λ n. name_at (get_elem? all n)) (zero_add i))
        (λ i. ap (λ n. guid_at (get_elem? all n)) (zero_add i)))
    ∙ ap (λ n. unwrap_guid n (ok (stop name 0 all))) (sym (zero_add (length all)))
    ∙ unwrap_guid-stop name 0 all
