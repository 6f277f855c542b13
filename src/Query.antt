-- ===== src/Query.antt =====
-- src/query.rs: what is asked of Windows without a session. A description is the list of its
-- characters. The layouts of the structures are those of Windows; the input of a query is left out.
-- Children: Utf16 and Sources (proofs about descriptions and lists of sources).
pub mod Utf16
pub mod Sources
mod Tests
use ferrisetw.Base.{
  ℕ, zero, suc, ◌+◌, ◌-◌, ◌*◌, Bool, ◌&&◌, List, [], ◌∷◌, ltb, leb, ◌==◌, if◌then◌else◌, length,
  take, drop, from_le_bytes,
}
use ferrisetw.Native.EtwTypes.{
  TraceInformation, trace_sampled_profile_interval_info, trace_profile_source_list_info,
  trace_version_info, trace_periodic_capture_state_info, trace_max_loggers_query,
  trace_max_pmc_counter_query,
}
use ferrisetw.Native.Evntrace.Info.{query_info, query_array_info}
use ferrisetw.Native.Windows.{TraceError, M, ◌>>=◌, pure, native, Windows}
use ferrisetw.Provider.EventFilter.{Platform}

pub data ProfileSource : Type 0 where
  profile_time : ProfileSource
  id : ℕ → ProfileSource

abbrev pub source_id : ProfileSource → ℕ
source_id profile_time = 0
source_id (id i) = i

pub record ProfileSourceInfo : Type 0 where
  pub id : ℕ
  pub min_interval : ℕ
  pub max_interval : ℕ
  pub description : List ℕ

pub record PeriodicCaptureStateLimits : Type 0 where
  pub min_frequency_seconds : ℕ
  pub max_providers : ℕ

abbrev pub profile_source_fixed_len : ℕ
profile_source_fixed_len = 24

abbrev pub read_u32 : List ℕ → ℕ → ℕ
read_u32 buf offset = from_le_bytes (take 4 (drop offset buf))

abbrev pub is_high : ℕ → Bool
is_high u = leb 0xd800 u && ltb u 0xdc00

abbrev pub is_low : ℕ → Bool
is_low u = leb 0xdc00 u && ltb u 0xe000

abbrev pub is_surrogate : ℕ → Bool
is_surrogate u = leb 0xd800 u && ltb u 0xe000

-- `String::from_utf16_lossy`: a surrogate without its pair becomes U+FFFD.
abbrev pub from_utf16_lossy : List ℕ → List ℕ
from_utf16_lossy [] = []
from_utf16_lossy (u ∷ []) = if is_surrogate u then 0xfffd ∷ [] else u ∷ []
from_utf16_lossy (u ∷ v ∷ us) =
    let rest = from_utf16_lossy (v ∷ us) in
    let after_pair = from_utf16_lossy us in
    if is_surrogate u
    then (if is_high u && is_low v
        then (0x10000 + (u - 0xd800) * 0x400 + (v - 0xdc00)) ∷ after_pair
        else 0xfffd ∷ rest)
    else u ∷ rest

-- The pairs of bytes up to a NUL; a last odd byte is left out.
abbrev pub units_to_nul : List ℕ → List ℕ
units_to_nul [] = []
units_to_nul (a ∷ []) = []
units_to_nul (a ∷ b ∷ bytes) =
    let rest = units_to_nul bytes in
    if (a == 0) && (b == 0) then [] else from_le_bytes (a ∷ b ∷ []) ∷ rest

abbrev pub decode_description : List ℕ → List ℕ
decode_description desc = from_utf16_lossy (units_to_nul desc)

abbrev pub source_at : List ℕ → ℕ → ProfileSourceInfo
source_at buf offset = record {
  id = read_u32 buf (offset + 4);
  min_interval = read_u32 buf (offset + 8);
  max_interval = read_u32 buf (offset + 12);
  description = decode_description (drop (offset + profile_source_fixed_len) buf);
}

-- The loop, for at most `rounds` entries.
unfoldable pub parse_from : (rounds : ℕ) → List ℕ → (offset : ℕ) → List ProfileSourceInfo
parse_from zero buf offset = []
parse_from (suc rounds) buf offset =
    let next = read_u32 buf offset in
    let rest = parse_from rounds buf (offset + next) in
    if leb (offset + profile_source_fixed_len) (length buf)
    then source_at buf offset ∷ (if next == 0 then [] else rest)
    else []

unfoldable pub parse_profile_sources : List ℕ → List ProfileSourceInfo
unfolding parse_from
parse_profile_sources buf = parse_from (length buf) buf 0

module _ (windows : Windows) (platform : Platform) where
  -- `query_pod`, and a field of the structure that it reads.
  unfoldable pub query_field : TraceInformation → (size : ℕ) → (offset width : ℕ) → M TraceError ℕ
  unfolding query_info
  query_field class size offset width =
      native (query_info windows platform class size)
      >>= (λ buf. pure (from_le_bytes (take width (drop offset buf))))

  unfoldable pub sample_interval : ProfileSource → M TraceError ℕ
  unfolding query_field
  sample_interval source = query_field trace_sampled_profile_interval_info 8 4 4

  unfoldable pub max_pmc : M TraceError ℕ
  unfolding query_field
  max_pmc = query_field trace_max_pmc_counter_query 4 0 4

  unfoldable pub max_loggers : M TraceError ℕ
  unfolding query_field
  max_loggers = query_field trace_max_loggers_query 4 0 4

  unfoldable pub trace_version : M TraceError ℕ
  unfolding query_field
  trace_version = query_field trace_version_info 8 0 4

  unfoldable pub periodic_capture_state_limits : M TraceError PeriodicCaptureStateLimits
  unfolding query_info
  periodic_capture_state_limits =
      native (query_info windows platform trace_periodic_capture_state_info 8) >>= (λ buf.
        pure (record {
          min_frequency_seconds = from_le_bytes (take 4 buf);
          max_providers = from_le_bytes (take 2 (drop 4 buf));
        }))

  unfoldable pub profile_sources : M TraceError (List ProfileSourceInfo)
  unfolding query_array_info parse_profile_sources
  profile_sources =
      native (query_array_info windows platform trace_profile_source_list_info 4096)
      >>= (λ buf. pure (parse_profile_sources buf))
