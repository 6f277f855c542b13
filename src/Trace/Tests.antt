-- ===== src/Trace/Tests.antt =====
-- The theorems about the provider registry at a concrete history.
use ferrisetw.Base.{ℕ, ◌≡◌, ◌%◌, refl, List, [], ◌∷◌, length}
use ferrisetw.Trace.Registry.{
  Operation, register, roll_back, empty, contains, apply_all, dispatch, remove_all_by_guid,
  remove_one,
}
use ferrisetw.Tdh.InType.{usize_mod}
use ferrisetw.Trace.Callbacks.{Step, on_event, on_buffer, start, run, run_totals}
use ferrisetw.Trace.Registry.Index.{select}
use ferrisetw.Trace.Registry.Refine.{specify_all, dispatch-specify, removed-specify}

-- Providers 1 and 3 have GUID 1, provider 2 has GUID 0.
abbrev parity : ℕ → ℕ
parity p = p % 2

abbrev history : List Operation
history = register 1 ∷ register 2 ∷ register 3 ∷ roll_back 5 ∷ []

specified : specify_all parity history [] ≡ 1 ∷ 2 ∷ 3 ∷ []
specified = refl

dispatch-specify_example :
    ((apply_all parity history empty).providers ≡ specify_all parity history [])
    × (dispatch parity 1 (apply_all parity history empty)
        ≡ select parity 1 (specify_all parity history []))
dispatch-specify_example = dispatch-specify parity history 1

removed-specify_example :
    ((remove_all_by_guid parity 1 (apply_all parity history empty)).0
      ≡ length (select parity 1 (specify_all parity history [])))
    × ((remove_one parity 2 (apply_all parity history empty)).0
        ≡ contains 2 (select parity (parity 2) (specify_all parity history [])))
removed-specify_example = removed-specify parity history 1 2

abbrev steps : List Step
steps = on_event ∷ on_buffer 2 0 ∷ on_event ∷ on_buffer 1 1 ∷ []

run_totals_example :
    ((run steps start).events_handled % usize_mod ≡ 2 % usize_mod)
    × ((run steps start).buffers_read ≡ 2)
    × ((run steps start).events_lost ≡ 1)
run_totals_example = run_totals steps
