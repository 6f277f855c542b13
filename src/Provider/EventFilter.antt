-- ===== src/Provider/EventFilter.antt =====
-- src/provider/event_filter.rs: filters and the descriptors that they are turned into. A
-- descriptor has the size of its allocation and its content, which is the structure that Windows
-- reads there. An executable name is its list of code points, an event name its UTF-8 bytes.
-- Children: Pieces (lists taken apart), Names (the names that Windows finds in a descriptor).

pub mod Pieces
pub mod Names
use ferrisetw.Base.{
  ℕ, zero, suc, ◌+◌, ◌-◌, ◌*◌, ◌/◌, ◌%◌, ◌^◌, String, Bool, true, false, ◌||◌, List, [], ◌∷◌, ◌++◌,
  ltb, leb, ◌==◌, if◌then◌else◌, length,
}

pub data FilterResult (A : Type 0) : Type 0 where
  ok : A → FilterResult A
  err : String → FilterResult A

pub record EventNamesFilter : Type 0 where
  pub names : List (List ℕ)
  pub match_any_keyword : ℕ
  pub match_all_keyword : ℕ
  pub level : ℕ
  pub filter_in : Bool

-- `EventNamesFilter::new` and its builder methods.
abbrev pub new : List (List ℕ) → EventNamesFilter
new names = record {
  names = names;
  match_any_keyword = 0;
  match_all_keyword = 0;
  level = 0;
  filter_in = true;
}

abbrev pub any : EventNamesFilter → ℕ → EventNamesFilter
any filter keyword = record filter { match_any_keyword = keyword }

abbrev pub all : EventNamesFilter → ℕ → EventNamesFilter
all filter keyword = record filter { match_all_keyword = keyword }

abbrev pub set_level : EventNamesFilter → ℕ → EventNamesFilter
set_level filter level = record filter { level = level }

abbrev pub exclude : EventNamesFilter → EventNamesFilter
exclude filter = record filter { filter_in = false }

pub data EventFilter : Type 0 where
  by_pids : List ℕ → EventFilter
  by_event_ids : List ℕ → EventFilter
  exclude_event_ids : List ℕ → EventFilter
  by_executable_names : List (List ℕ) → EventFilter
  by_event_names : EventNamesFilter → EventFilter
  stack_walk_by_event_ids : List ℕ → EventFilter
  exclude_stack_walk_by_event_ids : List ℕ → EventFilter

-- The EVENT_FILTER_TYPE_ constants that the source uses.
pub data FilterType : Type 0 where
  event_id : FilterType
  event_name : FilterType
  executable_name : FilterType
  pid : FilterType
  stackwalk : FilterType

pub data Content : Type 0 where
  event_ids : (filter_in : Bool) → (count : ℕ) → List ℕ → Content
  wide_names : List ℕ → Content
  event_names : EventNamesFilter → (name_count : ℕ) → List ℕ → Content
  pids : List ℕ → Content

pub record EventFilterDescriptor : Type 0 where
  pub ty : FilterType
  pub size : ℕ
  pub content : Content

-- The limits and the sizes of structures in evntprov.h, and whether an allocation of a size
-- succeeds.
pub record Platform : Type 0 where
  pub max_event_filter_data_size : ℕ
  pub max_event_filter_event_id_count : ℕ
  pub max_event_filter_event_name_size : ℕ
  pub max_event_filter_pid_count : ℕ
  pub event_id_size : ℕ
  pub event_name_header_size : ℕ
  pub alloc : ℕ → Bool

-- `[T]::is_empty`, `str::contains` and `str::encode_utf16`.
abbrev pub is_empty : {A : Type 0} → List A → Bool
is_empty [] = true
is_empty (x ∷ xs) = false

abbrev pub contains : ℕ → List ℕ → Bool
contains c [] = false
contains c (x ∷ xs) = let rest = contains c xs in (x == c) || rest

abbrev pub utf16_units : ℕ → List ℕ
utf16_units c =
    if ltb c 0x10000
    then c ∷ []
    else (0xd800 + (c - 0x10000) / 0x400) ∷ (0xdc00 + (c - 0x10000) % 0x400) ∷ []

abbrev pub encode_utf16 : List ℕ → List ℕ
encode_utf16 [] = []
encode_utf16 (c ∷ cs) = utf16_units c ++ encode_utf16 cs

abbrev pub executable_name_refused : List ℕ → Bool
executable_name_refused name = is_empty name || (contains 59 name || contains 0 name)

-- The loop over the names, from name `i` on, with what was pushed before.
unfoldable pub push_names : ℕ → List ℕ → List (List ℕ) → FilterResult (List ℕ)
push_names i wide [] = ok wide
push_names i wide (name ∷ names) =
    let separated = if ltb 0 i then wide ++ 59 ∷ [] else wide in
    let rest = push_names (suc i) (separated ++ encode_utf16 name) names in
    if executable_name_refused name
    then err "Executable names must not be empty, or contain ';' or NUL"
    else rest

abbrev pub any_event_name_refused : List (List ℕ) → Bool
any_event_name_refused [] = false
any_event_name_refused (name ∷ names) =
    let rest = any_event_name_refused names in (is_empty name || contains 0 name) || rest

-- `filter.names.iter().map(|name| name.len() + 1).sum()`
abbrev pub names_size : List (List ℕ) → ℕ
names_size [] = 0
names_size (name ∷ names) = length name + 1 + names_size names

-- The loop that copies the names and terminates each.
abbrev pub copy_names : List (List ℕ) → List ℕ
copy_names [] = []
copy_names (name ∷ names) = name ++ 0 ∷ copy_names names

module _ (platform : Platform) where
  open platform use {
    max_event_filter_data_size, max_event_filter_event_id_count, max_event_filter_event_name_size,
    max_event_filter_pid_count, event_id_size, event_name_header_size, alloc,
  }

  -- `try_new`, then the type and the content that its callers fill in.
  unfoldable pub try_new : ℕ → ℕ → FilterType → Content → FilterResult EventFilterDescriptor
  try_new data_size max_size filter_type content =
      if data_size == 0
      then err "Filter must not be empty"
      else if leb (2 ^ 32) data_size
      then err "Exceeded filter size limits"
      else if ltb max_size data_size
      then err "Exceeded filter size limits"
      else if alloc data_size
      then ok (record { ty = filter_type; size = data_size; content = content })
      else err "Invalid allocation"

  unfoldable pub try_new_by_event_id_list :
      List ℕ → Bool → FilterType → FilterResult EventFilterDescriptor
  unfolding try_new
  try_new_by_event_id_list eids filter_in ty =
      if is_empty eids
      then err "Filter must not be empty"
      else if ltb max_event_filter_event_id_count (length eids)
      then err "Too many event IDs are filtered"
      else try_new (event_id_size + (length eids - 1) * 2) max_event_filter_data_size ty
          (event_ids filter_in (length eids % 2 ^ 16) eids)

  abbrev pub terminated : FilterResult (List ℕ) → FilterResult EventFilterDescriptor
  terminated (err e) = err e
  terminated (ok wide) =
      try_new (2 * length (wide ++ 0 ∷ [])) max_event_filter_data_size executable_name
        (wide_names (wide ++ 0 ∷ []))

  unfoldable pub try_new_by_executable_names : List (List ℕ) → FilterResult EventFilterDescriptor
  unfolding push_names try_new
  try_new_by_executable_names names =
      if is_empty names then err "Filter must not be empty" else terminated (push_names 0 [] names)

  unfoldable pub try_new_by_event_names : EventNamesFilter → FilterResult EventFilterDescriptor
  unfolding try_new
  try_new_by_event_names filter =
      if is_empty filter.names
      then err "Filter must not be empty"
      else if any_event_name_refused filter.names
      then err "Event names must not be empty, or contain NUL"
      else try_new (event_name_header_size + names_size filter.names)
          max_event_filter_event_name_size event_name
          (event_names filter (length filter.names % 2 ^ 16) (copy_names filter.names))

  unfoldable pub try_new_by_process_ids : List ℕ → FilterResult EventFilterDescriptor
  unfolding try_new
  try_new_by_process_ids process_ids =
      if ltb max_event_filter_pid_count (length process_ids)
      then err "Too many PIDs are filtered"
      else try_new (length process_ids * 4) max_event_filter_data_size pid (pids process_ids)

  unfoldable pub to_event_filter_descriptor : EventFilter → FilterResult EventFilterDescriptor
  unfolding try_new_by_process_ids try_new_by_event_id_list try_new_by_executable_names
      try_new_by_event_names
  to_event_filter_descriptor (by_pids ids) = try_new_by_process_ids ids
  to_event_filter_descriptor (by_event_ids ids) = try_new_by_event_id_list ids true event_id
  to_event_filter_descriptor (exclude_event_ids ids) = try_new_by_event_id_list ids false event_id
  to_event_filter_descriptor (by_executable_names names) = try_new_by_executable_names names
  to_event_filter_descriptor (by_event_names filter) = try_new_by_event_names filter
  to_event_filter_descriptor (stack_walk_by_event_ids ids) =
      try_new_by_event_id_list ids true stackwalk
  to_event_filter_descriptor (exclude_stack_walk_by_event_ids ids) =
      try_new_by_event_id_list ids false stackwalk
