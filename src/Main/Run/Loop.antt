-- ===== src/Main/Run/Loop.antt =====
-- What the events of the process (src/Main.cxx, src/Instance.cxx) keep.
use qrelay.Common.{◌≡◌, ◌≢◌, refl, true, false, List, [], ◌∷◌, Bytes, All, if_elim}
use qrelay.Exception.{Outcome, thrown, completed}
use qrelay.Instance.{Instance, on_shutdown, on_reload}
use qrelay.Main.{Platform, PlatformLaws, Call, run_call}
use qrelay.Main.Bounds.{IsBounded, IsKept, run_call_keeps}
use qrelay.Main.Load.{Environment, Process}
use qrelay.CommandLine.{CommandLine}
use qrelay.Main.Run.{
  LoopEvent, terminates, hangs_up, calls_lua, start, after_call, on_event, event_loop,
}
use qrelay.Main.Run.Start.{start-IsStarted}

module _ (p : Platform) where
  pub after_call_keeps :
      (P : Instance → Type 0) (i : Instance) (r : Outcome Instance)
      → ((j : Instance) → r ≡ completed j → P j)
      → P i
      → P (after_call i r)
  unfolding after_call
  after_call_keeps P i (thrown e) later h = h
  after_call_keeps P i (completed j) later h = later j refl

  pub event_loop_next :
      (i : Instance) (e : LoopEvent) (events : List LoopEvent)
      → i.broken ≡ false
      → event_loop p i (e ∷ events) ≡ event_loop p (on_event p i e) events
  unfolding event_loop
  event_loop_next i e events h = rw h

  pub event_loop_broken :
      (i : Instance) (events : List LoopEvent) → i.broken ≡ true → event_loop p i events ≡ i
  unfolding event_loop
  event_loop_broken i [] h = refl
  event_loop_broken i (e ∷ events) h = rw h

  -- What each event keeps holds after any events.
  pub event_loop_keeps :
      (P : Instance → Type 0) (Q : LoopEvent → Type 0)
      → ((i : Instance) (e : LoopEvent) → Q e → P i → P (on_event p i e))
      → (events : List LoopEvent) (i : Instance) → All Q events
      → P i
      → P (event_loop p i events)
  unfolding event_loop
  event_loop_keeps P Q keeps [] i q h = h
  event_loop_keeps P Q keeps (e ∷ events) i q h =
      if_elim P i.broken i (event_loop p (on_event p i e) events) h
        (event_loop_keeps P Q keeps events (on_event p i e) q.1 (keeps i e q.0 h))

  pub on_call_keeps :
      (P : Instance → Type 0)
      → IsKept P
      → (i : Instance) (call : Call) → P i
      → P (on_event p i (calls_lua call))
  unfolding on_event
  on_call_keeps P kept i call h =
      after_call_keeps P i (run_call p i call) (λ j e. run_call_keeps p P kept i j call e h) h

  -- There is a listener, and each has a size within the limits.
  abbrev pub IsListening : Instance → Type 0
  IsListening i = All IsBounded i.listeners × (i.listeners ≢ [])

  IsListening-kept : IsKept IsListening
  IsListening-kept = record {
    by_listener = λ fd n handler i large small h. (((large, small), h.0), λ e. cc);
    by_message = λ message i h. h;
    by_global = λ name v i h. h;
  }

  on_event-IsListening :
      (i : Instance) (e : LoopEvent) → Unit {0} → IsListening i → IsListening (on_event p i e)
  unfolding on_event on_shutdown on_reload
  on_event-IsListening i terminates u h = h
  on_event-IsListening i hangs_up u h = h
  on_event-IsListening i (calls_lua call) u h = on_call_keeps IsListening IsListening-kept i call h

  every : (events : List LoopEvent) → All (λ e. Unit {0}) events
  every [] = tt
  every (e ∷ events) = (tt, every events)

  -- Once the process has started, then after any events, whatever Lua code sets and calls in them,
  -- there is at least one listener, and the size that each lets its clients send is from 1024 to
  -- 2 ^ 30.
  pub event_loop-IsListening :
      PlatformLaws p
      → (env : Environment) (directory : Bytes) (cmdline : CommandLine) (q : Process)
        (events : List LoopEvent)
      → start p env directory cmdline ≡ completed q
      → IsListening (event_loop p q.instance_of events)
  event_loop-IsListening laws env directory cmdline q events h =
      let started = start-IsStarted p env laws directory cmdline q h in
      event_loop_keeps IsListening (λ e. Unit {0}) on_event-IsListening events q.instance_of
        (every events) (started.bounded, started.listening)
