-- ===== src/Relay/Exec/Told.antt =====
-- The one call of an `ExecRelay` (src/ExecRelay.cxx), and what it waits for until then.
use qrelay.Common.{
  ◌≡◌, ◌≢◌, ◌⊎◌, inl, inr, refl, sym, ap, ◌∙◌, subst, ℤ, Bool, true, false, not, List, [], ◌∷◌,
  ◌++◌, none, some, some_injective, Bytes, Bool-cases, Option-cases, ◌==◌,
}
use qrelay.Libcommon.{Arrays}
use qrelay.Action.{Action, IsBounded, exec, names_program_lem}
use qrelay.Relay.Spawn.Bounds.{spawn-ne-none}
use qrelay.Relay.Basic.{HandlerCall, on_netstring_response}
use qrelay.Relay.ExitStatus.{is_negative, w_if_signaled, w_exit_status}
use qrelay.Relay.Spawn.{System, Spawned, threw, running, spawn}
use qrelay.Relay.Exec.{
  ExecRelay, report, started, start, on_child_process_exit, on_response, on_error, is_deferred,
  ExecEvent, answers, ends, breaks, handle, step,
}

-- The handler was not called: the child runs, or the NetstringClient has still to answer. Where it
-- has not, an answer was kept, which is not empty.
pub record IsPending (r : ExecRelay) : Type 0 where
  pub quiet : r.calls ≡ []
  pub waits_for : (r.pidfd ≡ true) ⊎ (r.requested ≢ none)
  pub kept : r.requested ≡ none → r.deferred_response ≢ none
  pub nonempty : (payload : Bytes) → r.deferred_response ≡ some payload → payload ≢ []

abbrev pub IsTold : ExecRelay → Type 0
IsTold r = IsPending r ⊎ ((call : HandlerCall) × (r.calls ≡ call ∷ []))

no_answer : (payload : Bytes) → none ≡ some payload → payload ≢ []
no_answer payload e = λ n. cc

-- Where an event can come: the NetstringClient answers or fails once, and the child exits once. An
-- answer is not empty.
abbrev pub Possible : ExecRelay → ExecEvent → Type 0
Possible r (answers payload) = (r.requested ≢ none) × (payload ≢ [])
Possible r (ends status) = r.pidfd ≡ true
Possible r breaks = r.requested ≢ none

report-IsTold : (r : ExecRelay) (call : HandlerCall) → r.calls ≡ [] → IsTold (report r call)
report-IsTold r call quiet = inr (call, ap (λ (calls : List HandlerCall). calls ++ call ∷ []) quiet)

kept_lem :
    (r : ExecRelay) (payload : Bytes)
    → r.pidfd ≡ true
    → on_response r payload ≡ record r { deferred_response = some payload }
unfolding on_response
kept_lem r payload child = rw child

passed_lem :
    (r : ExecRelay) (payload : Bytes)
    → r.pidfd ≡ false
    → on_response r payload ≡ report r (on_netstring_response payload)
unfolding on_response
passed_lem r payload gone = rw gone

on_response-IsTold :
    (r : ExecRelay) (payload : Bytes) → r.calls ≡ [] → payload ≢ [] → IsTold (on_response r payload)
on_response-IsTold r payload quiet n = elim (Bool-cases r.pidfd) [
  | inl child ↦ subst IsTold (sym (kept_lem r payload child)) (
      inl (record {
        quiet = quiet;
        waits_for = inl child;
        kept = λ e. λ n. cc;
        nonempty = λ p e. subst (λ q. q ≢ []) (some_injective e) n;
      }))
  | inr gone ↦ subst IsTold (sym (passed_lem r payload gone)) (report-IsTold r _ quiet)
]

module _ (arrays : Arrays) where
  kept_answer : (payload : Bytes) → payload ≢ [] → is_deferred arrays (some payload) ≡ true
  kept_answer [] n = absurd (n refl)
  kept_answer (c ∷ s) n = rw (arrays.some_bytes c s) refl

  -- An exit without an error and without an answer that was kept.
  exit_silent :
      (relay : ExecRelay)
      → IsPending relay
      → is_deferred arrays relay.deferred_response ≡ false
      → IsPending (record relay { pidfd = false })
  exit_silent relay v no_answer = elim (Option-cases relay.deferred_response) [
    | inl e ↦ record {
      quiet = v.quiet;
      waits_for = inr (λ n. v.kept n e);
      kept = v.kept;
      nonempty = v.nonempty;
    }
    | inr (p, e) ↦ cc (kept_answer p (v.nonempty p e), ap (is_deferred arrays) e)
  ]

  exit-IsTold :
      (relay : ExecRelay) (status : ℤ)
      → IsPending relay
      → IsTold (on_child_process_exit arrays relay status)
  unfolding on_child_process_exit
  exit-IsTold relay status v = elim (Bool-cases (is_negative status)) [
    | inl e ↦ rw e (report-IsTold r _ v.quiet)
    | inr n ↦ elim (Bool-cases (w_if_signaled status)) [
      | inl e ↦ rw (n, e) (report-IsTold r _ v.quiet)
      | inr s ↦ elim (Bool-cases (not (w_exit_status status == 0))) [
        | inl e ↦ rw (n, s, e) (report-IsTold r _ v.quiet)
        | inr z ↦ elim (Bool-cases (is_deferred arrays relay.deferred_response)) [
          | inl e ↦ rw (n, s, z, e) (report-IsTold r _ v.quiet)
          | inr e ↦ rw (n, s, z, e) (inl (exit_silent relay v e))
        ]
      ]
    ]
  ]
    where
      r : ExecRelay
      r = record relay { pidfd = false }

  -- A possible event of a relay that has not called its handler.
  pub step-IsTold :
      (r : ExecRelay) (event : ExecEvent)
      → Possible r event
      → IsPending r
      → IsTold (step arrays r event)
  unfolding step handle on_error
  step-IsTold r (answers payload) can v =
      on_response-IsTold (record r { requested = none }) payload v.quiet can.1
  step-IsTold r (ends status) can v = exit-IsTold r status v
  step-IsTold r breaks can v = report-IsTold (record r { requested = none }) _ v.quiet

-- A start with an action whose strings fit.
pub start-IsTold :
    (r : ExecRelay) (sys : System) (action : Action)
    → IsBounded action
    → action.type ≡ exec
    → r.calls ≡ []
    → r.deferred_response ≡ none
    → (q : ExecRelay) × (ok : Bool) × (start sys action r ≡ some (q, ok)) × IsTold q
unfolding start started
start-IsTold r sys action fits type quiet new = elim (Option-cases (spawn sys action)) [
  | inl overflow ↦ absurd (spawn-ne-none sys action fits.exec_fits fits.env_fits overflow)
  | inr (s, e) ↦ (
    (started r s).0,
    (started r s).1,
    rw (type, names_program_lem action.exec (fits.named (inl type)), e),
    started-IsTold s,
  )
]
  where
    started-IsTold : (s : Spawned) → IsTold (started r s).0
    started-IsTold threw = report-IsTold r _ quiet
    started-IsTold (running argv env) = inl (record {
      quiet = quiet;
      waits_for = inl refl;
      kept = λ e. cc;
      nonempty = λ payload e. no_answer payload (sym new ∙ e);
    })
