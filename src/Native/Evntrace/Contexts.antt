-- ===== src/Native/Evntrace/Contexts.antt =====
-- src/native/evntrace.rs: the thunks that Windows calls, and the contexts that they look up while
-- traces are opened, closed and dropped. Of the callback data, `store` has the counters at each
-- address; the callbacks of the user are not modelled. Each lookup and each change of the registry is
-- under its lock, so it is one step.
use ferrisetw.Base.{
  ℕ, ◌+◌, ◌^◌, ◌≡◌, ◌<◌, refl, sym, ap, subst, ◌∙◌, inl, inr, Bool, true, false, ◌&&◌, ◌||◌, Option,
  none, some, List, [], ◌∷◌, ◌==◌, if◌then◌else◌, Bool-cases, Option-cases, arith,
}
use ferrisetw.Native.Evntrace.{
  filter_invalid_trace_handles, next_id, new_context, unregister, get_context, open_trace, opened,
  close_trace, closed,
}
use ferrisetw.Native.Windows.{Call, open_trace_w, close_trace_w, Source, World, Windows}
use ferrisetw.Provider.EventFilter.{Platform}
use ferrisetw.Trace.Callbacks.{Counters, count_event, keep_totals}

-- The fields of an `EVENT_TRACE_LOGFILEW` that are read.
pub record LogFile : Type 0 where
  pub context : ℕ
  pub buffers_read : ℕ
  pub events_lost : ℕ

abbrev pub Store : Type 0
Store = ℕ → Counters

abbrev update : Option ℕ → (Counters → Counters) → Store → Store
update none f store = store
update (some address) f store = λ a. if a == address then f (store a) else store a

-- The argument is the `UserContext` of the record, unless its pointer is null.
unfoldable pub trace_callback_thunk : Option ℕ → World → Store → Store
trace_callback_thunk none w store = store
trace_callback_thunk (some user_context) w store =
    update (get_context user_context w) count_event store

-- The result is always `TRUE`.
unfoldable pub buffer_callback_thunk : Option LogFile → World → Store → Store
buffer_callback_thunk none w store = store
buffer_callback_thunk (some log_file) w store =
    update (get_context log_file.context w) (keep_totals log_file.buffers_read log_file.events_lost)
      store

pub data ContextOperation : Type 0 where
  open_operation : Source → (callback_data : ℕ) → ContextOperation
  close_operation : (trace_handle context : ℕ) → ContextOperation
  drop_operation : (context : ℕ) → ContextOperation

abbrev has_handle : Option ℕ → Bool
has_handle none = false
has_handle (some h) = true

-- Whether an operation retires the context `id`: its trace is closed under a valid handle, or the
-- context is dropped.
abbrev pub retires_one : ℕ → ContextOperation → Bool
retires_one id (open_operation source d) = false
retires_one id (close_operation h i) = (id == i) && has_handle (filter_invalid_trace_handles h)
retires_one id (drop_operation i) = id == i

-- How many ids operations take.
abbrev opens_one : ContextOperation → ℕ
opens_one (open_operation source d) = 1
opens_one (close_operation h i) = 0
opens_one (drop_operation i) = 0

abbrev pub opens : List ContextOperation → ℕ
opens [] = 0
opens (o ∷ os) = opens_one o + opens os

abbrev pub retires : ℕ → List ContextOperation → Bool
retires id [] = false
retires id (o ∷ os) = retires_one id o || retires id os

module _ (windows : Windows) (platform : Platform) where
  unfoldable pub apply : ContextOperation → World → World
  unfolding open_trace close_trace unregister
  apply (open_operation source d) w = (open_trace windows platform source d w).1
  apply (close_operation h i) w = (close_trace windows platform h i w).1
  apply (drop_operation i) w = unregister i w

  unfoldable pub apply_all : List ContextOperation → World → World
  unfolding apply
  apply_all [] w = w
  apply_all (o ∷ os) w = apply_all os (apply o w)

  opened-contexts :
      (o : Option ℕ) (i id : ℕ) (calls : List Call) (w : World)
      → (id == i) ≡ false
      → get_context id (opened windows platform o i calls w).1 ≡ get_context id w
  unfolding unregister
  opened-contexts none i id calls w e = rw e
  opened-contexts (some h) i id calls w e = refl

  opened-next :
      (o : Option ℕ) (i : ℕ) (calls : List Call) (w : World)
      → (opened windows platform o i calls w).1.next_context_id ≡ w.next_context_id
  unfolding unregister
  opened-next none i calls w = refl
  opened-next (some h) i calls w = refl

  closed-world : (calls : List Call) (w : World) → (closed windows platform calls w).1 ≡ w
  closed-world calls w = elim (Bool-cases (windows.status calls == windows.error_success)) [
    | inl e ↦ rw e
    | inr e ↦ elim (Bool-cases (windows.status calls == windows.error_ctx_close_pending)) [
      | inl f ↦ rw (e, f)
      | inr f ↦ rw (e, f)
    ]
  ]

  older : (id n : ℕ) → id < n → (id == n) ≡ false
  older id n h = ground arith

  open_trace-contexts :
      (source : Source) (d id : ℕ) (w : World)
      → id < w.next_context_id
      → (get_context id (open_trace windows platform source d w).1 ≡ get_context id w)
        × ((open_trace windows platform source d w).1.next_context_id ≡ next_id w.next_context_id)
  unfolding open_trace new_context
  open_trace-contexts source d id w h =
      let calls = open_trace_w w.next_context_id source ∷ w.calls in
      let u = record (new_context d w).1 { calls = calls } in
      let o = filter_invalid_trace_handles (windows.trace_handle calls) in
      let e = older id w.next_context_id h in
      (
        opened-contexts o w.next_context_id id calls u e
            ∙ ap (λ b. if b then some d else w.contexts id) e,
        opened-next o w.next_context_id calls u,
      )

  unregister-contexts :
      (i id : ℕ) (w : World)
      → get_context id (unregister i w) ≡ (if id == i then none else get_context id w)
  unfolding unregister
  unregister-contexts i id w = refl

  close_trace-contexts :
      (h i id : ℕ) (w : World)
      → (get_context id (close_trace windows platform h i w).1 ≡ (
          if (id == i) && has_handle (filter_invalid_trace_handles h)
          then none
          else get_context id w))
        × ((close_trace windows platform h i w).1.next_context_id ≡ w.next_context_id)
  unfolding close_trace unregister
  close_trace-contexts h i id w = elim (Option-cases (filter_invalid_trace_handles h)) [
    | inl e ↦
        rw e (elim (Bool-cases (id == i)) [ inl f ↦ rw f (refl, refl) | inr f ↦ rw f (refl, refl) ])
    | inr (g, e) ↦
        let calls = close_trace_w g ∷ w.calls in
        let c = closed-world calls (record (unregister i w) { calls = calls }) in
        rw e (elim (Bool-cases (id == i)) [
          | inl f ↦ rw f (
            ap (get_context id) c ∙ ap (λ b. if b then none else w.contexts id) f,
            ap (λ v. v.next_context_id) c,
          )
          | inr f ↦ rw f (
            ap (get_context id) c ∙ ap (λ b. if b then none else w.contexts id) f,
            ap (λ v. v.next_context_id) c,
          )
        ])
  ]

  apply-contexts :
      (o : ContextOperation) (id n : ℕ) (w : World)
      → id < w.next_context_id
      → w.next_context_id + (opens_one o + n) < 2 ^ 64
      → (get_context id (apply o w) ≡ (if retires_one id o then none else get_context id w))
        × ((id < (apply o w).next_context_id) × ((apply o w).next_context_id + n < 2 ^ 64))
  unfolding apply
  apply-contexts (open_operation source d) id n w given room =
      let (e, next) = open_trace-contexts source d id w given in
      (
        e,
        (
          subst (λ k. id < k) (sym next) (omega arith),
          subst (λ k. k + n < 2 ^ 64) (sym next) (omega arith),
        ),
      )
  apply-contexts (close_operation h i) id n w given room =
      let (e, next) = close_trace-contexts h i id w in
      (
        e,
        (
          subst (λ k. id < k) (sym next) given,
          subst (λ k. k + n < 2 ^ 64) (sym next) (omega arith),
        ),
      )
  apply-contexts (drop_operation i) id n w given room = (refl, (given, omega arith))

  either :
      (a b : Bool) (o : Option ℕ)
      → (if b then none else if a then none else o) ≡ (if a || b then none else o)
  either true true o = refl
  either true false o = refl
  either false true o = refl
  either false false o = refl

  apply_all-contexts :
      (os : List ContextOperation) (id : ℕ) (w : World)
      → id < w.next_context_id
      → w.next_context_id + opens os < 2 ^ 64
      → get_context id (apply_all os w) ≡ (if retires id os then none else get_context id w)
  unfolding apply_all
  apply_all-contexts [] id w given room = refl
  apply_all-contexts (o ∷ os) id w given room =
      let (e, (later, left)) = apply-contexts o id (opens os) w given room in
      apply_all-contexts os id (apply o w) later left
      ∙ ap (λ c. if retires id os then none else c) e
      ∙ either (retires_one id o) (retires id os) (get_context id w)

  updated :
      (b : Bool) (o p : Option ℕ) (f : Counters → Counters) (store : Store)
      → p ≡ (if b then none else o)
      → update p f store ≡ (if b then store else update o f store)
  updated true o p f store e = ap (λ q. update q f store) e
  updated false o p f store e = ap (λ q. update q f store) e

  -- Whatever traces are opened, closed and dropped, and whatever Windows answers: an event or a
  -- buffer that carries the id of a context given out before is counted where that context leads
  -- to, as before these operations, unless one of them has closed its trace or dropped it. From then
  -- on, it is dropped: a trace that is opened later never gets the events of one that is closed. The
  -- operations are few enough that the counter of the ids does not wrap around.
  pub thunks_dispatch :
      (os : List ContextOperation) (id : ℕ) (w : World)
      → id < w.next_context_id
      → w.next_context_id + opens os < 2 ^ 64
      → (store : Store) (buffers_read events_lost : ℕ)
      → (trace_callback_thunk (some id) (apply_all os w) store
          ≡ (if retires id os then store else trace_callback_thunk (some id) w store))
        × (buffer_callback_thunk
              (some
                (record { context = id; buffers_read = buffers_read; events_lost = events_lost }))
              (apply_all os w)
              store
            ≡ (if retires id os
                then store
                else buffer_callback_thunk
                    (some (record {
                      context = id;
                      buffers_read = buffers_read;
                      events_lost = events_lost;
                    }))
                    w
                    store))
  unfolding trace_callback_thunk buffer_callback_thunk
  thunks_dispatch os id w given room store b l =
      let e = apply_all-contexts os id w given room in
      (
        updated (retires id os) (get_context id w) (get_context id (apply_all os w)) count_event
            store e,
        updated (retires id os) (get_context id w) (get_context id (apply_all os w))
            (keep_totals b l) store e,
      )
