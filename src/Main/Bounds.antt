-- ===== src/Main/Bounds.antt =====
-- What a script's calls (src/Main.cxx) keep of the instance.
use qrelay.Common.{
  ℕ, ◌≡◌, ◌≤◌, ◌^◌, refl, subst, sym, none, Bool, true, false, List, [], ◌∷◌, Bytes, All,
}
use qrelay.Lua.Globals.{Function, Value, set_global}
use qrelay.Exception.{Outcome, thrown, completed, on_completed_cases, completed_injective}
use qrelay.Instance.{Instance, Listener, System, add_listener, logger}
use qrelay.Instance.Listeners.{add_systemd_listener_keeps}
use qrelay.Main.{Platform, Call, sets, listens, raises, guard, l_qmqp_listen, run_call, run_script}
use qrelay.Main.Listen.{Listens, at_path, at_systemd, l_qmqp_listen_iff}

-- The size that a listener lets its clients send is within the limits of qmqp_listen.
abbrev pub IsBounded : Listener → Type 0
IsBounded l = (1024 ≤ l.max_size) × (l.max_size ≤ 2 ^ 30)

-- A property that a script cannot break.
pub record IsKept (P : Instance → Type 0) : Type 0 where
  pub by_listener :
      (fd n : ℕ) (handler : Function) (i : Instance)
      → 1024 ≤ n
      → n ≤ 2 ^ 30
      → P i
      → P (add_listener fd n handler i)
  pub by_message : (message : Bytes) (i : Instance) → P i → P (logger message i)
  pub by_global :
      (name : Bytes) (v : Value) (i : Instance)
      → P i
      → P (record i { lua_state = set_global name v i.lua_state })

-- Behind a protected call there is what the call left, or what was there before it.
pub guard_keeps :
    (P : Instance → Type 0) (guarded : Bool) (i j : Instance) (r : Outcome Instance)
    → ((k : Instance) → r ≡ completed k → P k)
    → guard guarded i r ≡ completed j
    → P i
    → P j
unfolding guard
guard_keeps P guarded i j (completed k) after e h = subst P (completed_injective e) (after k refl)
guard_keeps P true i j (thrown x) after e h = subst P (completed_injective e) h
guard_keeps P false i j (thrown x) after e h = cc

module _ (p : Platform) (P : Instance → Type 0) (kept : IsKept P) where
  Listens_keeps :
      (system : System) (i j : Instance) (arguments : List Value)
      → Listens p system i arguments j
      → P i
      → P j
  Listens_keeps system i j arguments (at_path address handler n fd a size made e) h =
      subst P (sym e) (kept.by_listener fd n handler i size.large_enough size.small_enough h)
  Listens_keeps system i j arguments (at_systemd handler n a size e) h = subst P (sym e) (
      add_systemd_listener_keeps P n handler
        (λ fd k. kept.by_listener fd n handler k size.large_enough size.small_enough)
        kept.by_message system i h)

  pub run_call_keeps : (i j : Instance) (call : Call) → run_call p i call ≡ completed j → P i → P j
  unfolding run_call
  run_call_keeps i j (sets name v) e h = subst P (completed_injective e) (kept.by_global name v i h)
  run_call_keeps i j (listens system arguments guarded) e h =
      guard_keeps P guarded i j (l_qmqp_listen p system i arguments)
        (λ k c.
          Listens_keeps system i k arguments ((l_qmqp_listen_iff p system i k arguments).0 c) h)
        e h
  run_call_keeps i j (raises x) e h = cc

  pub run_script_keeps :
      (calls : List Call) (i j : Instance) → run_script p i calls ≡ completed j → P i → P j
  unfolding run_script
  run_script_keeps [] i j e h = subst P (completed_injective e) h
  run_script_keeps (call ∷ calls) i j e h =
      let (k, first, others) =
        on_completed_cases (run_call p i call) (λ k. run_script p k calls) j e in
      run_script_keeps calls k j others (run_call_keeps i k call first h)

-- What a script leaves: listeners within the limits, no log socket, and a loop that was not stopped.
pub record IsConfigured (i : Instance) : Type 0 where
  pub bounded : All IsBounded i.listeners
  pub not_logging : i.log_socket ≡ none
  pub not_broken : i.broken ≡ false

IsConfigured-kept : IsKept IsConfigured
IsConfigured-kept = record {
  by_listener = λ fd n handler i large small h. record {
    bounded = ((large, small), h.bounded);
    not_logging = h.not_logging;
    not_broken = h.not_broken;
  };
  by_message = λ message i h. record {
    bounded = h.bounded;
    not_logging = h.not_logging;
    not_broken = h.not_broken;
  };
  by_global = λ name v i h. record {
    bounded = h.bounded;
    not_logging = h.not_logging;
    not_broken = h.not_broken;
  };
}

pub run_script-IsConfigured :
    (p : Platform) (calls : List Call) (i j : Instance)
    → run_script p i calls ≡ completed j
    → IsConfigured i
    → IsConfigured j
run_script-IsConfigured p calls i j e h =
    run_script_keeps p IsConfigured IsConfigured-kept calls i j e h
