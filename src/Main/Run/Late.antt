-- ===== src/Main/Run/Late.antt =====
-- `qmqp_listen` (src/Main.cxx) in a handler that kept it.
use qrelay.Common.{
  ℕ, ◌≡◌, ◌≢◌, inl, inr, refl, sym, ap, ◌∙◌, subst, List, Bytes, codes, All, Bool-cases,
}
use qrelay.Lua.{nil, same_text}
use qrelay.Lua.Globals.{Value, plain, set_global, if_numeric}
use qrelay.Lua.Text.{same_text-≡}
use qrelay.Exception.{completed, completed_injective}
use qrelay.CommandLine.{CommandLine}
use qrelay.Instance.{Instance, Listener, System, on_shutdown, on_reload}
use qrelay.Main.{Platform, PlatformLaws, Call, sets, listens, raises, l_qmqp_listen, run_call}
use qrelay.Main.Listen.{IsMaxSize, Listens, at_path, at_systemd, l_qmqp_listen_iff}
use qrelay.Main.Bounds.{guard_keeps}
use qrelay.Main.Load.{Environment, Process}
use qrelay.Main.Run.{LoopEvent, terminates, hangs_up, calls_lua, start, on_event, event_loop}
use qrelay.Main.Run.Start.{start-IsStarted}
use qrelay.Main.Run.Loop.{after_call_keeps, event_loop_keeps}

-- Lua code that does not set the variable `max_size`.
abbrev pub LeavesMaxSize : LoopEvent → Type 0
LeavesMaxSize terminates = Unit
LeavesMaxSize hangs_up = Unit
LeavesMaxSize (calls_lua (sets name v)) = name ≢ codes "max_size"
LeavesMaxSize (calls_lua (listens system arguments guarded)) = Unit
LeavesMaxSize (calls_lua (raises e)) = Unit

-- There is no `max_size`, and these are the listeners.
abbrev IsFrozen : List Listener → Instance → Type 0
IsFrozen listeners i = (i.lua_state (codes "max_size") ≡ plain nil) × (i.listeners ≡ listeners)

module _ (p : Platform) where
  not-IsMaxSize :
      (i : Instance) (n : ℕ) → i.lua_state (codes "max_size") ≡ plain nil → ¬ IsMaxSize p i n
  not-IsMaxSize i n h size = absurd (cc (size.numeric, ap (if_numeric p.lua) h))

  not-Listens :
      (system : System) (i j : Instance) (arguments : List Value)
      → i.lua_state (codes "max_size") ≡ plain nil
      → ¬ Listens p system i arguments j
  not-Listens system i j arguments h (at_path address handler n fd a size made e) =
      not-IsMaxSize i n h size
  not-Listens system i j arguments h (at_systemd handler n a size e) = not-IsMaxSize i n h size

  set_global-other :
      (name : Bytes) (v : Value) (i : Instance)
      → name ≢ codes "max_size"
      → set_global name v i.lua_state (codes "max_size") ≡ i.lua_state (codes "max_size")
  set_global-other name v i h = elim (Bool-cases (same_text (codes "max_size") name)) [
    | inl e ↦ absurd (h (sym (same_text-≡ (codes "max_size") name e)))
    | inr e ↦ rw e
  ]

  run_call-IsFrozen :
      (listeners : List Listener) (i j : Instance) (call : Call)
      → LeavesMaxSize (calls_lua call)
      → run_call p i call ≡ completed j
      → IsFrozen listeners i
      → IsFrozen listeners j
  unfolding run_call
  run_call-IsFrozen listeners i j (sets name v) leaves e h =
      subst (IsFrozen listeners) (completed_injective e)
        (set_global-other name v i leaves ∙ h.0, h.1)
  run_call-IsFrozen listeners i j (listens system arguments guarded) leaves e h =
      guard_keeps (IsFrozen listeners) guarded i j (l_qmqp_listen p system i arguments)
        (λ k c.
          absurd
            (not-Listens system i k arguments h.0 ((l_qmqp_listen_iff p system i k arguments).0 c)))
        e h
  run_call-IsFrozen listeners i j (raises x) leaves e h = cc

  on_event-IsFrozen :
      (listeners : List Listener) (i : Instance) (e : LoopEvent)
      → LeavesMaxSize e
      → IsFrozen listeners i
      → IsFrozen listeners (on_event p i e)
  unfolding on_event on_shutdown on_reload
  on_event-IsFrozen listeners i terminates leaves h = h
  on_event-IsFrozen listeners i hangs_up leaves h = h
  on_event-IsFrozen listeners i (calls_lua call) leaves h =
      after_call_keeps p (IsFrozen listeners) i (run_call p i call)
        (λ j e. run_call-IsFrozen listeners i j call leaves e h) h

  -- Once the process has started, its listeners stay the same through any events in which Lua code
  -- does not set the variable `max_size`, although that code may have kept qmqp_listen and calls it.
  pub event_loop_listeners :
      PlatformLaws p
      → (env : Environment) (directory : Bytes) (cmdline : CommandLine) (q : Process)
      → (events : List LoopEvent) → start p env directory cmdline ≡ completed q
      → All LeavesMaxSize events
      → (event_loop p q.instance_of events).listeners ≡ q.instance_of.listeners
  event_loop_listeners laws env directory cmdline q events h leaves =
      let started = start-IsStarted p env laws directory cmdline q h in
      (event_loop_keeps p (IsFrozen q.instance_of.listeners) LeavesMaxSize
        (on_event-IsFrozen q.instance_of.listeners) events q.instance_of leaves
        (started.runtime.0, refl)).1
