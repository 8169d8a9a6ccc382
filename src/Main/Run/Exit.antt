-- ===== src/Main/Run/Exit.antt =====
-- The exit status of the process (src/Main.cxx).
use qrelay.Common.{
  ℕ, ◌≡◌, ◌≢◌, ◌⊎◌, inl, inr, refl, sym, ap, ◌∙◌, subst, Bool, true, false, List, [], ◌∷◌, ◌++◌,
  Option, none, some, Bytes, All, if◌then◌else◌,
}
use qrelay.Exception.{
  Exception, Outcome, thrown, completed, on_completed, Outcome-cases, completed_injective,
  thrown-ne-completed,
}
use qrelay.CommandLine.{CommandLine, parse_command_line}
use qrelay.Instance.{Instance, on_shutdown, on_reload}
use qrelay.Main.{Platform, PlatformLaws}
use qrelay.Main.Bounds.{IsKept}
use qrelay.Main.Load.{Environment, Process}
use qrelay.Main.Run.{
  LoopEvent, terminates, hangs_up, calls_lua, start, run, main, exit_status, on_event, event_loop,
}
use qrelay.Main.Run.Start.{start-IsStarted}
use qrelay.Main.Run.Loop.{event_loop_next, event_loop_broken, on_call_keeps}

-- No signal to end, or one of them.
pub data Ends (events : List LoopEvent) : Bool → Type 0 where
  never : All (λ e. e ≢ terminates) events → Ends events false
  once : (before after : List LoopEvent) → events ≡ before ++ terminates ∷ after → Ends events true

Ends-later :
    (e : LoopEvent) (events : List LoopEvent) (b : Bool)
    → e ≢ terminates
    → Ends events b
    → Ends (e ∷ events) b
Ends-later e events false h (never all) = never (h, all)
Ends-later e events true h (once before after same) = once (e ∷ before) after (ap (◌∷◌ e) same)

exit_status-thrown : (e : Exception) → exit_status (thrown e) ≡ some 1
unfolding exit_status
exit_status-thrown e = refl

module _ (p : Platform) where
  IsRunning-kept : IsKept (λ i. i.broken ≡ false)
  IsRunning-kept = record {
    by_listener = λ fd n handler i large small h. h;
    by_message = λ message i h. h;
    by_global = λ name v i h. h;
  }

  event_loop-shutdown :
      (i : Instance) (events : List LoopEvent)
      → i.broken ≡ false
      → (event_loop p i (terminates ∷ events)).broken ≡ true
  unfolding on_event on_shutdown
  event_loop-shutdown i events h =
      ap (λ (j : Instance). j.broken)
        (event_loop_next p i terminates events h
          ∙ event_loop_broken p (on_event p i terminates) events refl)

  event_loop_later :
      (i : Instance) (e : LoopEvent) (events : List LoopEvent)
      → i.broken ≡ false
      → e ≢ terminates
      → Ends events (event_loop p (on_event p i e) events).broken
      → Ends (e ∷ events) (event_loop p i (e ∷ events)).broken
  event_loop_later i e events h other ends =
      subst (λ (j : Instance). Ends (e ∷ events) j.broken) (sym (event_loop_next p i e events h))
        (Ends-later e events (event_loop p (on_event p i e) events).broken other ends)

  event_loop-Ends :
      (events : List LoopEvent) (i : Instance)
      → i.broken ≡ false
      → Ends events (event_loop p i events).broken
  unfolding event_loop on_event on_reload
  event_loop-Ends [] i h = subst (Ends []) (sym h) (never tt)
  event_loop-Ends (terminates ∷ events) i h =
      subst (Ends (terminates ∷ events)) (sym (event_loop-shutdown i events h))
        (once [] events refl)
  event_loop-Ends (hangs_up ∷ events) i h =
      event_loop_later i hangs_up events h (λ e. cc)
        (event_loop-Ends events (on_event p i hangs_up) h)
  event_loop-Ends (calls_lua call ∷ events) i h =
      event_loop_later i (calls_lua call) events h (λ e. cc)
        (event_loop-Ends events (on_event p i (calls_lua call))
          (on_call_keeps p (λ j. j.broken ≡ false) IsRunning-kept i call h))

  module _ (env : Environment) where
    -- The command line and the configuration let the process start, in a state that is `q`.
    abbrev pub Starts : Bytes → List Bytes → Process → Type 0
    Starts directory argv q =
        (c : CommandLine) × (parse_command_line argv ≡ completed c)
        × (start p env directory c ≡ completed q)

    no_start :
        (directory : Bytes) (argv : List Bytes) (c : CommandLine) (e : Exception)
        → parse_command_line argv ≡ completed c
        → start p env directory c ≡ thrown e
        → (q : Process) → ¬ Starts directory argv q
    no_start directory argv c e parsed h q (d, taken, started) =
        thrown-ne-completed
          (sym h ∙ ap (start p env directory) (completed_injective (sym parsed ∙ taken)) ∙ started)

    main_parsed :
        (directory : Bytes) (argv : List Bytes) (events : List LoopEvent) (r : Outcome CommandLine)
        → parse_command_line argv ≡ r
        → main p env directory argv events
          ≡ exit_status (on_completed r (run p env directory events))
    unfolding main
    main_parsed directory argv events r h =
        ap (λ s. exit_status (on_completed s (run p env directory events))) h

    -- What `Run` gives for a command line that was taken.
    run_exits :
        PlatformLaws p
        → (directory : Bytes) (argv : List Bytes) (events : List LoopEvent) (c : CommandLine)
        → parse_command_line argv ≡ completed c
        → ((q : Process) × (b : Bool) × Starts directory argv q
            × Ends events b
            × (exit_status (run p env directory events c) ≡ (if b then some 0 else none)))
          ⊎ (((q : Process) → ¬ Starts directory argv q)
              × (exit_status (run p env directory events c) ≡ some 1))
    unfolding run exit_status
    run_exits laws directory argv events c parsed = elim (Outcome-cases (start p env directory c)) [
      | inl (e, h) ↦ inr (no_start directory argv c e parsed h, rw h)
      | inr (q, h) ↦ inl (
        q,
        (event_loop p q.instance_of events).broken,
        (c, parsed, h),
        event_loop-Ends events q.instance_of (start-IsStarted p env laws directory c q h).running,
        rw h,
      )
    ]

    -- main exits with status 1 exactly if the command line is refused or the process does not
    -- start. Otherwise it exits with status 0 if one of the events is a signal to end, and without
    -- such a signal it goes on waiting for events.
    pub main_exits :
        PlatformLaws p
        → (directory : Bytes) (argv : List Bytes) (events : List LoopEvent)
        → ((q : Process) × (b : Bool) × Starts directory argv q
            × Ends events b
            × (main p env directory argv events ≡ (if b then some 0 else none)))
          ⊎ (((q : Process) → ¬ Starts directory argv q)
              × (main p env directory argv events ≡ some 1))
    main_exits laws directory argv events = elim (Outcome-cases (parse_command_line argv)) [
      | inl (e, h) ↦ inr (
        (λ q s. absurd (thrown-ne-completed (sym h ∙ s.1))),
        main_parsed directory argv events (thrown e) h ∙ exit_status-thrown e,
      )
      | inr (c, h) ↦
          subst
            (λ (status : Option ℕ).
              ((q : Process) × (b : Bool) × Starts directory argv q
                × Ends events b
                × (status ≡ (if b then some 0 else none)))
              ⊎ (((q : Process) → ¬ Starts directory argv q) × (status ≡ some 1)))
            (sym (main_parsed directory argv events (completed c) h))
            (run_exits laws directory argv events c h)
    ]
