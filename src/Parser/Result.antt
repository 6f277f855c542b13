-- ===== src/Parser/Result.antt =====
-- src/parser.rs: `ParserError` and `ParserResult`. Errors of other crates and of Windows keep no
-- payload but the status code.
use ferrisetw.Base.{ℕ, String, ◌≡◌, refl, ◌⊎◌, inl, inr, Option, none, some}

pub data ParserError : Type 0 where
  not_found invalid_type parse_error length_mismatch : ParserError
  property_error : String → ParserError
  utf8_error slice_error sddl_native_error : ParserError
  tdh_native_error : ℕ → ParserError

pub data ParserResult {ℓ} (A : Type ℓ) : Type ℓ where
  ok : A → ParserResult A
  err : ParserError → ParserResult A

-- `?`: an error ends the function.
infixl 5 ◌>>=◌
abbrev pub ◌>>=◌ {ℓ κ} :
    {V : Type ℓ} {W : Type κ} → ParserResult V → (V → ParserResult W) → ParserResult W
err stop >>= next = err stop
ok found >>= next = next found

-- `Option::ok_or`.
abbrev pub ok_or {ℓ} : {A : Type ℓ} → Option A → ParserError → ParserResult A
ok_or none e = err e
ok_or (some a) e = ok a

-- `Option::and_then`.
abbrev pub and_then {ℓ κ} : {A : Type ℓ} {B : Type κ} → Option A → (A → Option B) → Option B
and_then none f = none
and_then (some a) f = f a

-- An arm that may `return` its result, and what runs if it does not.
abbrev pub return_or {ℓ} : {A : Type ℓ} → Option A → A → A
return_or none rest = rest
return_or (some a) rest = a

-- A function that succeeds succeeded in its first part.
pub >>=-eq-ok {ℓ κ} :
    {V : Type ℓ} {W : Type κ} (first : ParserResult V) (next : V → ParserResult W) {w : W}
    → (first >>= next) ≡ ok w
    → (v : V) × (first ≡ ok v) × (next v ≡ ok w)
>>=-eq-ok (err stop) next e = cc
>>=-eq-ok (ok v) next e = (v, refl, e)

pub ParserResult-cases {ℓ} :
    {A : Type ℓ} (m : ParserResult A) → ((a : A) × (m ≡ ok a)) ⊎ ((e : ParserError) × (m ≡ err e))
ParserResult-cases (ok a) = inl (a, refl)
ParserResult-cases (err e) = inr (e, refl)

pub ok-injective {ℓ} : {A : Type ℓ} {a b : A} → ok a ≡ ok b → a ≡ b
ok-injective {A} {a} {b} e = cc
