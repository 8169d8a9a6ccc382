-- ===== src/Relay/Spawn/Bounds.antt =====
-- The arrays on the stack of `ExecRelay::Start` and `RawExecRelay::Start`, and the StaticVectors
-- of src/Action.hxx.
use qrelay.Common.{
  c_string, ℕ, zero, suc, ◌-◌, ◌<◌, ◌≤◌, ◌≡◌, ◌≢◌, refl, ap, ◌∙◌, true, List, [], ◌∷◌, ◌++◌, map,
  none, some, arith, Bytes, length, length-append, append_assoc,
}
use qrelay.Action.{
  Action, IsBounded, RunsProgram, names_program, names_program_lem, max_exec, max_env,
}
use qrelay.Relay.Spawn.{Slot, null, arg, junk_slots, store, fill, System, running, spawn}

-- What an element refers to.
abbrev pub c_arg : Bytes → Slot
c_arg s = arg (c_string s)

-- An array whose first elements are written.
abbrev written : List Slot → ℕ → List Slot
written done n = done ++ junk_slots n

store-written :
    (done : List Slot) (n : ℕ) (s : Slot)
    → store (written done (suc n)) (length done) s ≡ some (done ++ s ∷ junk_slots n)
unfolding store
store-written [] n s = refl
store-written (x ∷ done) n s = rw (store-written done n s)

-- What the array holds when `is` are stored behind `done`, with room for `k` more and the end.
abbrev filled : List Slot → ℕ → List Bytes → List Slot
filled done k is = done ++ (map c_arg is ++ null ∷ junk_slots (k - length is))

fill-written :
    (is : List Bytes) (done : List Slot) (k : ℕ)
    → length is ≤ k
    → fill (written done (suc k)) (length done) is ≡ some (filled done k is)
unfolding fill
fill-written [] done k h =
    let all_left : k - 0 ≡ k = omega arith in rw all_left (store-written done k null)
fill-written (i ∷ is) done zero h = absurd (omega arith)
fill-written (i ∷ is) done (suc k) h =
    let more = done ++ c_arg i ∷ [] in
    let next : written more (suc k) ≡ done ++ c_arg i ∷ junk_slots (suc k) =
      append_assoc done (c_arg i ∷ []) (junk_slots (suc k)) in
    let count : length more ≡ suc (length done) =
      omega (arith, length-append done (c_arg i ∷ [])) in
    let left : suc k - suc (length is) ≡ k - length is = omega arith in
    let rest : fill (done ++ c_arg i ∷ junk_slots (suc k)) (suc (length done)) is
        ≡ some (filled more k is) =
      rw (← next, ← count) (fill-written is more k (omega arith)) in
    let shape : filled more k is ≡ filled done (suc k) (i ∷ is) =
      rw left (append_assoc done (c_arg i ∷ []) _) in
    rw (store-written done (suc k) (c_arg i)) (rest ∙ ap some shape)

store_full : (slots : List Slot) (s : Slot) → store slots (length slots) s ≡ none
unfolding store
store_full [] s = refl
store_full (x ∷ slots) s = rw (store_full slots s)

fill_full : (is : List Bytes) (slots : List Slot) → fill slots (length slots) is ≡ none
unfolding fill
fill_full [] slots = store_full slots null
fill_full (i ∷ is) slots = rw (store_full slots (c_arg i))

fill-overflow :
    (is : List Bytes) (done : List Slot) (k : ℕ)
    → k < length is
    → fill (written done (suc k)) (length done) is ≡ none
unfolding fill
fill-overflow [] done k h = absurd (omega arith)
fill-overflow (i ∷ is) done zero h =
    let count : length (done ++ c_arg i ∷ []) ≡ suc (length done) =
      omega (arith, length-append done (c_arg i ∷ [])) in
    rw (store-written done 0 (c_arg i)) (rw (← count) (fill_full is (done ++ c_arg i ∷ [])))
fill-overflow (i ∷ is) done (suc k) h =
    let more = done ++ c_arg i ∷ [] in
    let next : written more (suc k) ≡ done ++ c_arg i ∷ junk_slots (suc k) =
      append_assoc done (c_arg i ∷ []) (junk_slots (suc k)) in
    let count : length more ≡ suc (length done) =
      omega (arith, length-append done (c_arg i ∷ [])) in
    rw (store-written done (suc k) (c_arg i))
      (rw (← next, ← count) (fill-overflow is more k (omega arith)))

-- For an action that runs a program, within the StaticVectors' bounds and with a program named,
-- with both pipes and no error: the assertion that one is named holds, and the child runs with
-- exactly the action's strings, each up to its first null byte, and each array ended by a null
-- pointer.
pub spawn_running :
    (sys : System) (action : Action)
    → IsBounded action
    → RunsProgram action.type
    → sys.stdin_pipe ≡ true
    → sys.stdout_pipe ≡ true
    → sys.spawn_error ≡ 0
    → (names_program action.exec ≡ true)
      × (spawn sys action
          ≡ some (
              running
                (map c_arg action.exec ++ null ∷ junk_slots (max_exec - length action.exec))
                (map c_arg action.env ++ null ∷ junk_slots (max_env - length action.env))))
unfolding spawn
spawn_running sys action b runs i o e = (
  names_program_lem action.exec (b.named runs),
  ground (
    arith,
    fill-written action.exec [] max_exec b.exec_fits,
    fill-written action.env [] max_env b.env_fits,
  ),
)

-- For an action within the StaticVectors' bounds neither array overflows, whatever the system
-- does.
pub spawn-ne-none :
    (sys : System) (action : Action)
    → length action.exec ≤ max_exec
    → length action.env ≤ max_env
    → spawn sys action ≢ none
unfolding spawn
spawn-ne-none sys action exec_fits env_fits = ground (
  arith,
  fill-written action.exec [] max_exec exec_fits,
  fill-written action.env [] max_env env_fits,
)

-- One argument more than the StaticVector holds would be written out of bounds.
pub spawn_overflow :
    (sys : System) (action : Action)
    → sys.stdin_pipe ≡ true
    → sys.stdout_pipe ≡ true
    → max_exec < length action.exec
    → spawn sys action ≡ none
unfolding spawn
spawn_overflow sys action i o h = ground (arith, fill-overflow action.exec [] max_exec h)
