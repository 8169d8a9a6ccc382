-- ===== src/Main/Listen.antt =====
-- What `l_qmqp_listen` (src/Main.cxx) accepts, and what it does then.
use qrelay.Common.{
  ℕ, ◌≡◌, ◌≤◌, ◌^◌, ◌↔◌, inl, inr, refl, sym, ap, ◌∙◌, ℤ, pos, negsuc, true, List, [], ◌∷◌, Option,
  none, some, Bytes, codes, Bool-cases, arith, ==_iff, ltb, ◌*◌,
}
use qrelay.Lua.{nil, other, string, number, table}
use qrelay.Instance.Listeners.{add_address_listener_cases, add_address_listener_made}
use qrelay.Lua.Globals.{
  Value, Globals, Function, plain, function, light_user_data, if_function, if_text, if_numeric,
}
use qrelay.Exception.{completed, on_completed, on_completed_cases, completed_injective}
use qrelay.Instance.{
  Instance, System, add_listener, make_listener, add_address_listener, add_systemd_listener,
}
use qrelay.Main.{
  Platform, systemd_magic, is_systemd_magic, to_size, get_global_int, listen_at, listen_sized,
  listen_with, l_qmqp_listen, integer_or_error,
}

plain_string : (v : Value) (s : Bytes) → if_text v ≡ some s → v ≡ plain (string s)
plain_string (plain (string t)) s h = cc
plain_string (plain nil) s h = cc
plain_string (plain other) s h = cc
plain_string (plain (number n)) s h = cc
plain_string (plain (table t)) s h = cc
plain_string (function f) s h = cc
plain_string (light_user_data q) s h = cc

is_systemd_magic-value : (v : Value) → is_systemd_magic v ≡ true → v ≡ light_user_data systemd_magic
is_systemd_magic-value (light_user_data q) h = ap light_user_data ((==_iff q systemd_magic).0 h)
is_systemd_magic-value (plain v) h = cc
is_systemd_magic-value (function f) h = cc

to_size-small : (n : ℕ) → n ≤ 2 ^ 30 → to_size (pos n) ≡ n
to_size-small n h = ground arith

module _ (p : Platform) where
  -- The global variable `max_size` is the number `n`, and within the limits.
  pub record IsMaxSize (i : Instance) (n : ℕ) : Type 0 where
    pub bits : ℕ
    pub numeric : if_numeric p.lua (i.lua_state (codes "max_size")) ≡ some bits
    pub integer : p.to_integer bits ≡ pos n
    pub large_enough : 1024 ≤ n
    pub small_enough : n ≤ 2 ^ 30

  -- The calls that add listeners: with the path of a socket that can be made, or with the
  -- variable `systemd`, and a function.
  pub data Listens (system : System) (i : Instance) (arguments : List Value) (j : Instance)
      : Type 0 where
    at_path :
        (address : Bytes) (handler : Function) (n fd : ℕ)
        → arguments ≡ plain (string address) ∷ function handler ∷ []
        → IsMaxSize i n
        → system.create (make_listener address) ≡ some fd
        → j ≡ add_listener fd n handler i
        → Listens system i arguments j
    at_systemd :
        (handler : Function) (n : ℕ)
        → arguments ≡ light_user_data systemd_magic ∷ function handler ∷ []
        → IsMaxSize i n
        → j ≡ add_systemd_listener system n handler i
        → Listens system i arguments j

  integer_or_error_cases :
      (name : Bytes) (o : Option ℕ) (m : ℤ)
      → integer_or_error p name o ≡ completed m
      → (bits : ℕ) × (o ≡ some bits) × (p.to_integer bits ≡ m)
  unfolding integer_or_error
  integer_or_error_cases name none m h = cc
  integer_or_error_cases name (some bits) m h = (bits, refl, completed_injective h)

  get_global_int_cases :
      (globals : Globals) (name : Bytes) (m : ℤ)
      → get_global_int p globals name ≡ completed m
      → (bits : ℕ) × (if_numeric p.lua (globals name) ≡ some bits) × (p.to_integer bits ≡ m)
  unfolding get_global_int
  get_global_int_cases globals name m h =
      integer_or_error_cases name (if_numeric p.lua (globals name)) m h

  listen_sized_cases :
      (system : System) (i j : Instance) (v : Value) (handler : Function) (m : ℤ)
      → listen_sized p system i v handler m ≡ completed j
      → (n : ℕ) × (m ≡ pos n)
        × (1024 ≤ n)
        × (n ≤ 2 ^ 30)
        × (listen_at p system i v (pos n) handler (if_text v) ≡ completed j)
  unfolding listen_sized
  listen_sized_cases system i j v handler (negsuc n) h = cc
  listen_sized_cases system i j v handler (pos n) h = elim (Bool-cases (ltb n 1024)) [
    | inl e ↦ cc
    | inr e ↦ elim (Bool-cases (ltb (1024 * 1024 * 1024) n)) [
      | inl f ↦ cc
      | inr f ↦ (n, refl, ground arith, ground arith, ground arith)
    ]
  ]

  listen_at-magic :
      (system : System) (i : Instance) (v : Value) (m : ℤ) (handler : Function)
      → is_systemd_magic v ≡ true
      → listen_at p system i v m handler none
        ≡ completed (add_systemd_listener system (to_size m) handler i)
  unfolding listen_at
  listen_at-magic system i v m handler e = rw e

  listen_at_cases :
      (system : System) (i j : Instance) (v : Value) (handler : Function) (n : ℕ) (o : Option Bytes)
      → if_text v ≡ o
      → IsMaxSize i n
      → listen_at p system i v (pos n) handler o ≡ completed j
      → Listens system i (v ∷ function handler ∷ []) j
  unfolding listen_at
  listen_at_cases system i j v handler n (some address) t size h =
      let (fd, made, added) =
        add_address_listener_cases system address (to_size (pos n)) handler i j h in
      at_path address handler n fd
        (ap (λ (w : Value). w ∷ function handler ∷ []) (plain_string v address t)) size made
        (added ∙ ap (λ (m : ℕ). add_listener fd m handler i) (to_size-small n size.small_enough))
  listen_at_cases system i j v handler n none t size h = elim (Bool-cases (is_systemd_magic v)) [
    | inl e ↦
        at_systemd handler n
          (ap (λ (w : Value). w ∷ function handler ∷ []) (is_systemd_magic-value v e)) size
          (completed_injective (sym h ∙ listen_at-magic system i v (pos n) handler e)
            ∙ ap (λ (m : ℕ). add_systemd_listener system m handler i)
                (to_size-small n size.small_enough))
    | inr e ↦ cc
  ]

  listen_with_cases :
      (system : System) (i j : Instance) (v w : Value)
      → listen_with p system i v (if_function w) ≡ completed j
      → Listens system i (v ∷ w ∷ []) j
  unfolding listen_with
  listen_with_cases system i j v (plain w) h = cc
  listen_with_cases system i j v (light_user_data w) h = cc
  listen_with_cases system i j v (function handler) h =
      let (m, got, sized) =
        on_completed_cases (get_global_int p i.lua_state (codes "max_size"))
          (listen_sized p system i v handler) j h in
      let (bits, numeric, integer) = get_global_int_cases i.lua_state (codes "max_size") m got in
      let (n, is_pos, large, small, at) = listen_sized_cases system i j v handler m sized in
      listen_at_cases system i j v handler n (if_text v) refl
        (record {
          bits = bits;
          numeric = numeric;
          integer = integer ∙ is_pos;
          large_enough = large;
          small_enough = small;
        })
        at

  l_qmqp_listen-Listens :
      (system : System) (i j : Instance) (arguments : List Value)
      → l_qmqp_listen p system i arguments ≡ completed j
      → Listens system i arguments j
  unfolding l_qmqp_listen
  l_qmqp_listen-Listens system i j [] h = cc
  l_qmqp_listen-Listens system i j (v ∷ []) h = cc
  l_qmqp_listen-Listens system i j (v ∷ w ∷ []) h = listen_with_cases system i j v w h
  l_qmqp_listen-Listens system i j (v ∷ w ∷ x ∷ arguments) h = ground arith

  get_global_int-IsMaxSize :
      (i : Instance) (n : ℕ)
      → IsMaxSize i n
      → get_global_int p i.lua_state (codes "max_size") ≡ completed (pos n)
  unfolding get_global_int integer_or_error
  get_global_int-IsMaxSize i n size = rw (size.numeric, size.integer)

  listen_sized_within :
      (system : System) (i : Instance) (v : Value) (handler : Function) (n : ℕ)
      → 1024 ≤ n
      → n ≤ 2 ^ 30
      → listen_sized p system i v handler (pos n)
        ≡ listen_at p system i v (pos n) handler (if_text v)
  unfolding listen_sized
  listen_sized_within system i v handler n large small = ground arith

  l_qmqp_listen_sized :
      (system : System) (i : Instance) (v : Value) (handler : Function) (n : ℕ)
      → IsMaxSize i n
      → l_qmqp_listen p system i (v ∷ function handler ∷ [])
        ≡ listen_at p system i v (pos n) handler (if_text v)
  unfolding l_qmqp_listen listen_with
  l_qmqp_listen_sized system i v handler n size =
      ap (λ r. on_completed r (listen_sized p system i v handler))
        (get_global_int-IsMaxSize i n size)
      ∙ listen_sized_within system i v handler n size.large_enough size.small_enough

  Listens-l_qmqp_listen :
      (system : System) (i j : Instance) (arguments : List Value)
      → Listens system i arguments j
      → l_qmqp_listen p system i arguments ≡ completed j
  unfolding listen_at
  Listens-l_qmqp_listen system i j arguments (at_path address handler n fd a size made e) =
      ap (l_qmqp_listen p system i) a
      ∙ l_qmqp_listen_sized system i (plain (string address)) handler n size
      ∙ ap (λ (m : ℕ). add_address_listener system address m handler i)
          (to_size-small n size.small_enough)
      ∙ add_address_listener_made system address n fd handler i made
      ∙ ap completed (sym e)
  Listens-l_qmqp_listen system i j arguments (at_systemd handler n a size e) =
      ap (l_qmqp_listen p system i) a
      ∙ l_qmqp_listen_sized system i (light_user_data systemd_magic) handler n size
      ∙ ap (λ (m : ℕ). completed (add_systemd_listener system m handler i))
          (to_size-small n size.small_enough)
      ∙ ap completed (sym e)

  -- qmqp_listen completes exactly if it is called with the path of a socket that the system makes,
  -- or with the variable `systemd`, then a function, while the global `max_size` is a number from
  -- 1024 to 2 ^ 30; it then adds one listener for the path, or does what
  -- AddSystemdListener does, each with that size and that function.
  pub l_qmqp_listen_iff :
      (system : System) (i j : Instance) (arguments : List Value)
      → (l_qmqp_listen p system i arguments ≡ completed j) ↔ Listens system i arguments j
  l_qmqp_listen_iff system i j arguments =
      (l_qmqp_listen-Listens system i j arguments, Listens-l_qmqp_listen system i j arguments)
