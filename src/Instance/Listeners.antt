-- ===== src/Instance/Listeners.antt =====
-- What the operations of `Instance` (src/Instance.cxx) do to the listeners.
use qrelay.Common.{
  ℕ, zero, suc, ◌+◌, ◌≡◌, refl, sym, ap, ◌∙◌, ℤ, pos, negsuc, Bool, true, false, List, [], ◌∷◌,
  ◌++◌, Option, none, some, Bytes, append_assoc, codes, ◌==◌, ◌≢◌, arith, ◌⊎◌, Bool-cases, inl, inr,
  if_elim,
}
use qrelay.Lua.Globals.{Function, Value, is_nil}
use qrelay.Exception.{completed, completed_injective}
use qrelay.Instance.{
  Instance, Listener, System, add_listener, make_listener, with_socket, add_address_listener,
  add_systemd_sockets, add_listen_fds, add_systemd_listener, is_empty, check, logger, log_to,
  setup_log_socket, sd_listen_fds_start,
}

with_socket_cases :
    (socket : Option ℕ) (n : ℕ) (handler : Function) (i j : Instance)
    → with_socket socket n handler i ≡ completed j
    → (fd : ℕ) × (socket ≡ some fd) × (j ≡ add_listener fd n handler i)
unfolding with_socket
with_socket_cases none n handler i j h = cc
with_socket_cases (some fd) n handler i j h = (fd, refl, sym (completed_injective h))

pub add_address_listener_cases :
    (system : System) (address : Bytes) (n : ℕ) (handler : Function) (i j : Instance)
    → add_address_listener system address n handler i ≡ completed j
    → (fd : ℕ) × (system.create (make_listener address) ≡ some fd)
      × (j ≡ add_listener fd n handler i)
unfolding add_address_listener
add_address_listener_cases system address n handler i j h =
    with_socket_cases (system.create (make_listener address)) n handler i j h

pub add_address_listener_made :
    (system : System) (address : Bytes) (n fd : ℕ) (handler : Function) (i : Instance)
    → system.create (make_listener address) ≡ some fd
    → add_address_listener system address n handler i ≡ completed (add_listener fd n handler i)
unfolding add_address_listener with_socket
add_address_listener_made system address n fd handler i h = rw h

-- Listeners with the `n` sockets from `fd` on, the last one first.
abbrev pub sockets_from : ℕ → ℕ → ℕ → Function → List Listener
sockets_from zero fd max_size handler = []
sockets_from (suc n) fd max_size handler =
    sockets_from n (fd + 1) max_size handler
    ++ record { fd = fd; max_size = max_size; handler = handler } ∷ []

pub add_systemd_sockets_lem :
    (n k max_size : ℕ) (handler : Function) (i : Instance)
    → add_systemd_sockets n k max_size handler i
      ≡ record i { listeners = sockets_from n (3 + k) max_size handler ++ i.listeners }
unfolding add_systemd_sockets
add_systemd_sockets_lem zero k max_size handler i = refl
add_systemd_sockets_lem (suc n) k max_size handler i =
    let l : Listener = record { fd = 3 + k; max_size = max_size; handler = handler } in
    add_systemd_sockets_lem n (k + 1) max_size handler (add_listener (3 + k) max_size handler i)
    ∙ ap
        (λ (fd : ℕ). record i { listeners = sockets_from n fd max_size handler ++ l ∷ i.listeners })
        {x = 3 + (k + 1)} {y = 3 + k + 1} (omega arith)
    ∙ ap (λ (ls : List Listener). record i { listeners = ls })
        (sym (append_assoc (sockets_from n (3 + k + 1) max_size handler) (l ∷ []) i.listeners))

-- What is kept when a listener is added and when something is logged.
module _ (P : Instance → Type 0) (max_size : ℕ) (handler : Function)
    (adds : (fd : ℕ) (i : Instance) → P i → P (add_listener fd max_size handler i))
    (logs : (message : Bytes) (i : Instance) → P i → P (logger message i)) where
  add_systemd_sockets_keep :
      (n k : ℕ) (i : Instance) → P i → P (add_systemd_sockets n k max_size handler i)
  unfolding add_systemd_sockets
  add_systemd_sockets_keep zero k i h = h
  add_systemd_sockets_keep (suc n) k i h =
      add_systemd_sockets_keep n (k + 1) (add_listener (sd_listen_fds_start + k) max_size handler i)
        (adds (sd_listen_fds_start + k) i h)

  add_listen_fds_keep :
      (n : ℤ) (strerror : Bytes) (i : Instance)
      → P i
      → P (add_listen_fds n strerror max_size handler i)
  unfolding add_listen_fds
  add_listen_fds_keep (negsuc n) strerror i h =
      logs (codes "sd_listen_fds() failed: " ++ strerror) i h
  add_listen_fds_keep (pos n) strerror i h =
      if_elim P (n == 0) _ _ (logs (codes "No systemd socket") i h)
        (add_systemd_sockets_keep n 0 i h)

  pub add_systemd_listener_keeps :
      (system : System) (i : Instance) → P i → P (add_systemd_listener system max_size handler i)
  unfolding add_systemd_listener
  add_systemd_listener_keeps system i h =
      add_listen_fds_keep system.sd_listen_fds system.strerror i h

is_empty-false : (listeners : List Listener) → is_empty listeners ≡ false → listeners ≢ []
is_empty-false [] h = cc
is_empty-false (l ∷ listeners) h = λ e. cc

-- `Check` lets an instance with listeners through, as it is.
pub check_cases : (i j : Instance) → check i ≡ completed j → (j ≡ i) × (i.listeners ≢ [])
unfolding check
check_cases i j h = elim (Bool-cases (is_empty i.listeners)) [
  | inl e ↦ cc
  | inr e ↦ (cc, is_empty-false i.listeners e)
]

is_empty-true : (listeners : List Listener) → is_empty listeners ≡ true → listeners ≡ []
is_empty-true [] h = refl
is_empty-true (l ∷ listeners) h = cc

pub check_nonempty : (i : Instance) → i.listeners ≢ [] → check i ≡ completed i
unfolding check
check_nonempty i h = elim (Bool-cases (is_empty i.listeners)) [
  | inl e ↦ absurd (h (is_empty-true i.listeners e))
  | inr e ↦ rw e
]

log_to_cases :
    (o : Option Bytes) (connects : Bytes → Bool) (i j : Instance)
    → log_to o connects i ≡ completed j
    → (a : Bytes) × (o ≡ some a) × (connects a ≡ true) × (j ≡ record i { log_socket = some a })
unfolding log_to
log_to_cases none connects i j h = cc
log_to_cases (some a) connects i j h = elim (Bool-cases (connects a)) [
  | inl e ↦ (a, refl, e, sym (completed_injective (sym (log_to_connected a connects i e) ∙ h)))
  | inr e ↦ cc
]
  where
    log_to_connected :
        (b : Bytes) (connects : Bytes → Bool) (i : Instance)
        → connects b ≡ true
        → log_to (some b) connects i ≡ completed (record i { log_socket = some b })
    log_to_connected b connects i e = rw e

-- Without `log_server` the instance stays as it is, with it the socket is connected to its address.
pub setup_log_socket_cases :
    (to_socket_address : Value → Option Bytes) (connects : Bytes → Bool) (i j : Instance)
    → setup_log_socket to_socket_address connects i ≡ completed j
    → ((is_nil (i.lua_state (codes "log_server")) ≡ true) × (j ≡ i))
      ⊎ ((a : Bytes) × (is_nil (i.lua_state (codes "log_server")) ≡ false)
          × (to_socket_address (i.lua_state (codes "log_server")) ≡ some a)
          × (connects a ≡ true)
          × (j ≡ record i { log_socket = some a }))
unfolding setup_log_socket
setup_log_socket_cases to_socket_address connects i j h =
    elim (Bool-cases (is_nil (i.lua_state (codes "log_server")))) [
      | inl e ↦ inl (
        e,
        sym (completed_injective (sym (without_log_server to_socket_address connects i e) ∙ h)),
      )
      | inr e ↦
          let (a, found, connected, made) =
            log_to_cases (to_socket_address (i.lua_state (codes "log_server"))) connects i j
              (sym (with_log_server to_socket_address connects i e) ∙ h) in
          inr (a, e, found, connected, made)
    ]
  where
    without_log_server :
        (f : Value → Option Bytes) (connects : Bytes → Bool) (k : Instance)
        → is_nil (k.lua_state (codes "log_server")) ≡ true
        → setup_log_socket f connects k ≡ completed k
    without_log_server f connects k e = rw e

    with_log_server :
        (f : Value → Option Bytes) (connects : Bytes → Bool) (k : Instance)
        → is_nil (k.lua_state (codes "log_server")) ≡ false
        → setup_log_socket f connects k ≡ log_to (f (k.lua_state (codes "log_server"))) connects k
    with_log_server f connects k e = rw e
