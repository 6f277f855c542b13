-- ===== src/Provider/Tests.antt =====
-- The theorems of this directory at concrete filters.
use ferrisetw.Base.{ℕ, ◌+◌, ◌*◌, ◌≤◌, ◌≡◌, refl, true, List, [], ◌∷◌, length}
use ferrisetw.Provider.EventFilter.{
  ok, EventNamesFilter, new, any, all, set_level, EventFilterDescriptor, executable_name,
  event_name, wide_names, event_names, Platform, push_names, try_new, try_new_by_executable_names,
  try_new_by_event_names,
}
use ferrisetw.Provider.EventFilter.Pieces.{split_at_ends, ends_name, is_nul}
use ferrisetw.Provider.EventFilter.Names.{
  try_new_by_executable_names-split, try_new_by_event_names-split,
}

abbrev test_platform : Platform
test_platform = record {
  max_event_filter_data_size = 1024;
  max_event_filter_event_id_count = 64;
  max_event_filter_event_name_size = 4096;
  max_event_filter_pid_count = 8;
  event_id_size = 6;
  event_name_header_size = 20;
  alloc = λ size. true;
}

-- "ab" and a name of one character outside the basic plane: "ab;" and its two surrogates.
abbrev two_names : EventFilterDescriptor
two_names = record {
  ty = executable_name;
  size = 12;
  content = wide_names (97 ∷ 98 ∷ 59 ∷ 0xd83d ∷ 0xde00 ∷ 0 ∷ []);
}

two_names_built :
    try_new_by_executable_names test_platform ((97 ∷ 98 ∷ []) ∷ (0x1f600 ∷ []) ∷ []) ≡ ok two_names
unfolding try_new_by_executable_names push_names try_new
two_names_built = refl

try_new_by_executable_names-split_example :
    (units : List ℕ) × ((two_names.content ≡ wide_names units)
      × ((two_names.size ≡ 2 * length units)
          × (split_at_ends ends_name units ≡ (97 ∷ 98 ∷ []) ∷ (0xd83d ∷ 0xde00 ∷ []) ∷ [])))
try_new_by_executable_names-split_example =
    try_new_by_executable_names-split test_platform (97 ∷ 98 ∷ []) ((0x1f600 ∷ []) ∷ []) two_names
      two_names_built

abbrev names_filter : EventNamesFilter
names_filter = set_level (all (any (new ((72 ∷ 105 ∷ []) ∷ (79 ∷ []) ∷ [])) 0xff00) 0x11) 4

abbrev event_filter : EventFilterDescriptor
event_filter = record {
  ty = event_name;
  size = 25;
  content = event_names names_filter 2 (72 ∷ 105 ∷ 0 ∷ 79 ∷ 0 ∷ []);
}

event_filter_built : try_new_by_event_names test_platform names_filter ≡ ok event_filter
unfolding try_new_by_event_names try_new
event_filter_built = refl

try_new_by_event_names-split_example :
    (bytes : List ℕ) × ((event_filter.content ≡ event_names names_filter 2 bytes)
      × ((event_filter.size ≡ 20 + length bytes)
          × ((event_filter.size ≤ 4096)
              × (split_at_ends is_nul bytes ≡ (72 ∷ 105 ∷ []) ∷ (79 ∷ []) ∷ []))))
try_new_by_event_names-split_example =
    try_new_by_event_names-split test_platform names_filter event_filter event_filter_built
