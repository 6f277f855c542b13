-- ===== src/Native/ExtendedData.antt =====
-- src/native/etw_types/extended_data.rs: `Sid` and `get_event_name`. The data of an item is the
-- `DataSize` bytes at `DataPtr`, which is not null. `memchr` is a parameter. The event name is the
-- bytes that `from_utf8_lossy` is then given.
-- Children: SidAccess (what is read from a SID), Names (event names), Items (all
-- kinds of items), Complete (which items are read).

pub mod SidAccess
pub mod Names
pub mod Items
pub mod Complete
use ferrisetw.Base.{
  ℕ, zero, suc, ◌+◌, ◌-◌, ◌*◌, ◌/◌, min, Bool, true, false, not, Option, none, some, List, [], ◌∷◌,
  ltb, leb, ◌==◌, if◌then◌else◌, length, get_elem?, get_or, take, drop, get_range, from_le_bytes,
}

-- `Sid::from_raw`
unfoldable pub sid_from_raw : List ℕ → Option (List ℕ)
sid_from_raw (revision ∷ sub_authority_count ∷ rest) =
    let full_len = 8 + 4 * sub_authority_count in
    let bytes = revision ∷ sub_authority_count ∷ rest in
    if ltb (length bytes) full_len then none else some (take full_len bytes)
sid_from_raw _ = none

-- `Sid::sub_authority_count`; a SID always has this byte.
abbrev pub sub_authority_count : List ℕ → ℕ
sub_authority_count sid = get_or sid 1 0

-- `Sid::sub_authority`. The slice is taken with its check, which fails where the source panics.
unfoldable pub sub_authority : List ℕ → ℕ → Option ℕ
unfolding get_range
sub_authority sid index =
    if leb (sub_authority_count sid) index
    then none
    else elim (get_range (8 + 4 * index) (8 + 4 * index + 4) sid) [
      | none ↦ none
      | some bytes ↦ some (from_le_bytes bytes)
    ]

-- The tags: the first position from `i` on, below `size`, whose byte has its high bit clear, or
-- `size`. `rounds` is `size - i`.
unfoldable pub skip_tags : ℕ → List ℕ → ℕ → ℕ
skip_tags zero blob i = i
skip_tags (suc rounds) blob i =
    let rest = skip_tags rounds blob (suc i) in if ltb (get_or blob i 0) 128 then i else rest

abbrev declared_size : List ℕ → ℕ
declared_size blob = min (from_le_bytes (take 2 blob)) (length blob)

module _ (memchr : ℕ → List ℕ → Option ℕ) where
  -- The name between the tags and `size`.
  unfoldable pub name_between : List ℕ → ℕ → ℕ → Option (List ℕ)
  name_between blob tags_end size =
      if leb size tags_end
      then none
      else (let name = take (size - (tags_end + 1)) (drop (tags_end + 1) blob) in
          elim (memchr 0 name) [ none ↦ none | some name_len ↦ some (take name_len name) ])

  unfoldable pub get_event_name : List ℕ → Option (List ℕ)
  unfolding skip_tags name_between
  get_event_name blob =
      if ltb (length blob) 2
      then none
      else name_between blob (skip_tags (declared_size blob - 2) blob 2) (declared_size blob)
