-- ===== src/Native/Evntrace/Info/Rounds.antt =====
-- src/native/evntrace.rs: the rounds of `query_array_info`.
use ferrisetw.Base.{
  ℕ, zero, suc, ◌+◌, ◌≤◌, ◌≡◌, refl, Bool, true, false, ◌&&◌, List, ◌∷◌, ◌++◌, ltb, ◌==◌,
  if◌then◌else◌, length, length-take, take, replicate, min, arith,
}
use ferrisetw.Native.EtwTypes.{TraceInformation}
use ferrisetw.Native.Evntrace.Info.{query_rounds, query_array_info}
use ferrisetw.Native.Windows.{
  Call, trace_query_information, EvntraceNativeError, io_error, Result, ok, err, World, M, pure,
  throw, Windows,
}
use ferrisetw.Provider.EventFilter.{Platform}

module _ (windows : Windows) (platform : Platform) where
  -- What a query with at most `n` more calls returns: the bytes that the latest call says it has
  -- written, or an error.
  abbrev pub Answered : ℕ → World → Result EvntraceNativeError (List ℕ) × World → Type 0
  Answered n w (ok bytes, v) =
      (length v.calls ≤ n + length w.calls)
      × (((windows.status v.calls == windows.error_success) ≡ true)
          × (length bytes ≤ windows.needed v.calls))
  Answered n w (err e, v) = length v.calls ≤ n + length w.calls

  one_more :
      (n : ℕ) (w v : World) (c : Call) (r : Result EvntraceNativeError (List ℕ))
      → Answered n (record w { calls = c ∷ w.calls }) (r, v)
      → Answered (suc n) w (r, v)
  one_more n w v c (ok bytes) (few, (success, short)) = (omega arith, (success, short))
  one_more n w v c (err e) few = omega arith

  round :
      (s b : Bool) (n code : ℕ) (w : World) (c : Call) (bytes : List ℕ)
      (again : M EvntraceNativeError (List ℕ))
      → (windows.status (c ∷ w.calls) == windows.error_success) ≡ s
      → length bytes ≤ windows.needed (c ∷ w.calls)
      → Answered (suc n) w (again (record w { calls = c ∷ w.calls }))
      → Answered (suc n) w (
          (if s then pure bytes else if b then again else throw (io_error code))
            (record w { calls = c ∷ w.calls }))
  round true b n code w c bytes again e short rest = (omega arith, (e, short))
  round false true n code w c bytes again e short rest = rest
  round false false n code w c bytes again e short rest = omega arith

  query_rounds-Answered :
      (n : ℕ) (class : TraceInformation) (capacity : ℕ) (w : World)
      → Answered n w (query_rounds windows platform n class capacity w)
  unfolding query_rounds
  query_rounds-Answered zero class capacity w = omega arith
  query_rounds-Answered (suc n) class capacity w =
      let c = trace_query_information 0 class capacity in
      let calls = c ∷ w.calls in
      let u = record w { calls = calls } in
      let needed = windows.needed calls in
      let buf = take capacity (windows.written calls ++ replicate capacity 0) in
      let again = query_rounds windows platform n class needed in
      round (windows.status calls == windows.error_success)
        ((windows.status calls == windows.error_insufficient_buffer) && ltb capacity needed) n
        (windows.status calls) w c (take (min needed (length buf)) buf) again refl
        (omega (arith, length-take (min needed (length buf)) buf))
        (one_more n w (again u).1 c (again u).0 (query_rounds-Answered n class needed u))

  -- A query of an array makes at most four more calls, whatever Windows answers them. When it
  -- returns bytes, the latest call succeeded and the bytes are no more than it says it needs.
  pub query_array_info-Answered :
      (class : TraceInformation) (initial_capacity : ℕ) (w : World)
      → Answered 4 w (query_array_info windows platform class initial_capacity w)
  unfolding query_array_info
  query_array_info-Answered = query_rounds-Answered 4
