-- ===== src/Native/Tests.antt =====
-- The theorems of this directory at concrete times.
use ferrisetw.Base.{
  ℕ, suc, ◌+◌, ◌*◌, ◌-◌, ◌^◌, min, pos, ◌≡◌, refl, Option, none, some, List, [], ◌∷◌, ◌++◌, All,
  ◌==◌, ==_iff, true, Bool-cases, inl, inr, if◌then◌else◌, length, get_elem?, arith,
}
use ferrisetw.Native.ExtendedData.{sid_from_raw, sub_authority, get_event_name}
use ferrisetw.Native.ExtendedData.Names.{get_event_name-reads}
use ferrisetw.Native.ExtendedData.SidAccess.{sub_authority-from_raw}
use ferrisetw.Native.ExtendedData.Items.{
  ExtType, StackTraceItem, stack_trace_from_raw, to_extended_data_item,
}
use ferrisetw.Native.ExtendedData.Complete.{
  is_supported, to_extended_data_item-IsSupported, stack_trace_from_raw-addresses,
}
use mathlib.Core.Option
use ferrisetw.Native.Pla.{PlaError, get_provider_guid}
use ferrisetw.Native.Pla.Lookup.{
  Registered, IsBalanced, collection, get_provider_guid-IsBalanced, get_provider_guid-find_guid,
}
use ferrisetw.Native.Windows
use ferrisetw.Native.Time.Calendar.{as_filetime_quad}
use ferrisetw.Native.Time.Calendar.Days.{as_filetime_quad-date_after}

-- S-1-5-32, with a byte after it in the item.
abbrev sid_item : List ℕ
sid_item = 1 ∷ 1 ∷ 0 ∷ 0 ∷ 0 ∷ 0 ∷ 0 ∷ 5 ∷ 32 ∷ 0 ∷ 0 ∷ 0 ∷ 9 ∷ []

abbrev sid_copy : List ℕ
sid_copy = 1 ∷ 1 ∷ 0 ∷ 0 ∷ 0 ∷ 0 ∷ 0 ∷ 5 ∷ 32 ∷ 0 ∷ 0 ∷ 0 ∷ []

sid_copied : sid_from_raw sid_item ≡ some sid_copy
unfolding sid_from_raw
sid_copied = refl

sub_authority-from_raw_example : sub_authority sid_copy 0 ≡ some 32
sub_authority-from_raw_example = sub_authority-from_raw sid_item sid_copy sid_copied 0 (omega arith)

-- The first position of a byte.
abbrev find_byte : ℕ → List ℕ → Option ℕ
find_byte b [] = none
find_byte b (x ∷ xs) = let rest = Option.map suc (find_byte b xs) in if x == b then some 0 else rest

==-self : (b : ℕ) → (b == b) ≡ true
==-self b = (==_iff b b).1 refl

find_byte-first :
    (b : ℕ) (xs ys : List ℕ)
    → All (λ x. ¬ (x ≡ b)) xs
    → find_byte b (xs ++ b ∷ ys) ≡ some (length xs)
find_byte-first b [] ys others = rw (==-self b)
find_byte-first b (x ∷ xs) ys (other, others) = elim (Bool-cases (x == b)) [
  | inl same ↦ absurd (other ((==_iff x b).0 same))
  | inr differs ↦ rw (differs, find_byte-first b xs ys others)
]

-- One tag, the name "Hi" and its NUL, then a field, in metadata of declared size 40.
get_event_name-reads_example :
    get_event_name find_byte (40 ∷ 0 ∷ 129 ∷ 1 ∷ 72 ∷ 105 ∷ 0 ∷ 7 ∷ []) ≡ some (72 ∷ 105 ∷ [])
get_event_name-reads_example =
    get_event_name-reads find_byte find_byte-first 40 0 (129 ∷ []) 1 (72 ∷ 105 ∷ []) (7 ∷ [])
      (omega arith, tt) (omega arith) ((λ e. omega (arith, e)), ((λ e. omega (arith, e)), tt))
      (omega arith)

to_extended_data_item-IsSupported_example :
    is_supported (to_extended_data_item find_byte ExtType.sid (some sid_item)) ≡ true
to_extended_data_item-IsSupported_example =
    to_extended_data_item-IsSupported find_byte ExtType.sid sid_item

-- The match id, two 32-bit addresses and a byte that is left over.
abbrev trace_item : List ℕ
trace_item = 7 ∷ 0 ∷ 0 ∷ 0 ∷ 0 ∷ 0 ∷ 0 ∷ 0 ∷ 1 ∷ 2 ∷ 0 ∷ 0 ∷ 3 ∷ 4 ∷ 0 ∷ 0 ∷ 9 ∷ []

abbrev trace_read : StackTraceItem
trace_read = record { match_id = 7; addresses = 513 ∷ 1027 ∷ [] }

trace_found : stack_trace_from_raw 4 7 trace_item ≡ some trace_read
unfolding stack_trace_from_raw
trace_found = refl

stack_trace_from_raw-addresses_example :
    (length (StackTraceItem.addresses trace_read) ≡ 2)
    × (get_elem? (StackTraceItem.addresses trace_read) 1 ≡ some 1027)
stack_trace_from_raw-addresses_example =
    stack_trace_from_raw-addresses 4 7 trace_item trace_read 1 trace_found

as_filetime_quad-date_after_example :
    as_filetime_quad (record {
      year = 1601;
      month = 3;
      day_of_week = 4;
      day = 1;
      hour = 12;
      minute = 30;
      second = 15;
      milliseconds = 250;
    })
    ≡ pos (min ((59 * 86400 + 12 * 3600 + 30 * 60 + 15) * 10000000 + 250 * 10000) (2 ^ 63 - 1))
as_filetime_quad-date_after_example = as_filetime_quad-date_after 59 4 12 30 15 250

-- Three providers; two are named A, and B is the last.
abbrev three : List Registered
three =
    record { display_name = 65 ∷ []; guid = 11 }
    ∷ record { display_name = 65 ∷ []; guid = 12 }
    ∷ record { display_name = 66 ∷ []; guid = 13 }
    ∷ []

get_provider_guid-find_guid_example :
    (get_provider_guid (collection three) (65 ∷ []) 0).0 ≡ Windows.ok (some 11)
get_provider_guid-find_guid_example = get_provider_guid-find_guid three (65 ∷ []) 0

last_missed : (get_provider_guid (collection three) (66 ∷ []) 0).0 ≡ Windows.err PlaError.not_found
last_missed = get_provider_guid-find_guid three (66 ∷ []) 0

get_provider_guid-IsBalanced_example :
    IsBalanced 2 (get_provider_guid (collection three) (66 ∷ []) 2)
get_provider_guid-IsBalanced_example = get_provider_guid-IsBalanced (collection three) (66 ∷ []) 2
