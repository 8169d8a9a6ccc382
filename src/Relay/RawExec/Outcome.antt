-- ===== src/Relay/RawExec/Outcome.antt =====
-- A run of a raw program to its end, and what `RawExecRelay` (src/RawExecRelay.cxx) tells the
-- handler.
use qrelay.Common.{
  subst, ℕ, zero, suc, ◌-◌, ◌≤◌, ◌<◌, ◌≡◌, ◌≢◌, refl, sym, ap, ◌∙◌, inl, inr, ℤ, Bool, true, false,
  List, [], ◌∷◌, ◌++◌, append_assoc, append-nil, Option, some, arith, Bytes, All, take, drop,
  length, concat, ◌>>=◌, ◌==◌, Bool-cases, take-take_append, take_short,
}
use qrelay.Relay.Basic.{HandlerCall}
use qrelay.Relay.RawExec.{
  RawExecRelay, buffer_size, Events, finds, try_read, discard, append, set_front, first_byte,
  status_response, status_call, finish, finish_with, after_read, close_response_pipe, report,
  destroy, on_response_pipe_ready, on_child_process_exit,
}
use qrelay.Relay.RawExec.Buffer.{
  IsSound, collected, output_size, try_read-finds, try_read-kept, length-collected,
}

-- The program runs and its output is open.
pub record IsRunning (r : RawExecRelay) : Type 0 where
  pub child : r.pidfd ≡ true
  pub pipe : r.response_pipe ≡ true
  pub alive : r.deleted ≡ false
  pub sound : IsSound r

abbrev pub readable : Events
readable = record { hangup = false; others = true }

short_collected : (r : RawExecRelay) → IsSound r → collected r ≡ take output_size (collected r)
short_collected r s =
    sym (take_short output_size (collected r) (omega (arith, length-collected r s, s)))

module _ (destroys : Bool) where
  -- The output in the pieces that are read.
  unfoldable pub read_all : RawExecRelay → List Bytes → Option RawExecRelay
  read_all r [] = some r
  read_all r (c ∷ chunks) =
      on_response_pipe_ready destroys r readable (finds c) >>= λ q. read_all q chunks

  ready_more :
      (r : RawExecRelay) (x : ℕ) (bytes : Bytes)
      → on_response_pipe_ready destroys r readable (finds (x ∷ bytes))
        ≡ some (try_read destroys r (finds (x ∷ bytes))).0
  unfolding on_response_pipe_ready after_read try_read discard append
  ready_more r x bytes = elim (Bool-cases (buffer_size - r.response_fill == 0)) [
    | inl full ↦ rw (full, discard, after_read)
    | inr room ↦
        let e : buffer_size - r.response_fill ≡ suc (buffer_size - r.response_fill - 1) =
          ground arith in
        ground (arith, e)
  ]

  -- After reads of any pieces that are not empty the program still runs, and the buffer holds the
  -- first 255 bytes of all.
  Collects : RawExecRelay → List Bytes → Type 0
  Collects r chunks =
      (q : RawExecRelay) × (read_all r chunks ≡ some q)
      × IsRunning q
      × (collected q ≡ take output_size (collected r ++ concat chunks))
      × (q.calls ≡ r.calls)

  read_all-Collects :
      (r : RawExecRelay) (chunks : List Bytes)
      → IsRunning r
      → All (λ c. c ≢ []) chunks
      → Collects r chunks
  unfolding read_all Collects
  read_all-Collects r [] run some_chunks =
      (r, refl, run, rw append-nil (short_collected r run.sound), refl)
  read_all-Collects r ([] ∷ chunks) run some_chunks = absurd (some_chunks.0 refl)
  read_all-Collects r ((x ∷ c) ∷ chunks) run some_chunks =
      let next = (try_read destroys r (finds (x ∷ c))).0 in
      let (child, pipe, alive, calls, _) = try_read-kept destroys r (x ∷ c) in
      let (sound, got) = try_read-finds destroys r run.sound (x ∷ c) in
      let still : IsRunning next = record {
        child = child ∙ run.child;
        pipe = pipe ∙ run.pipe;
        alive = alive ∙ run.alive;
        sound = sound;
      } in
      let (q, e, run', got', calls') = read_all-Collects next chunks still some_chunks.1 in
      (
        q,
        rw (ready_more r x c) e,
        run',
        got'
            ∙ ap (λ (t : Bytes). take output_size (t ++ concat chunks)) got
            ∙ take-take_append output_size (collected r ++ x ∷ c) (concat chunks)
            ∙ ap (take output_size) (append_assoc (collected r) (x ∷ c) (concat chunks)),
        calls' ∙ calls,
      )

-- The response: the status alone decides its first byte; the output replaces the rest, if any.
abbrev pub raw_response : ℤ → Bytes → Bytes
raw_response status [] = status_response status
raw_response status (c ∷ output) =
    first_byte (status_response status) ∷ take output_size (c ∷ output)

take-set_front :
    (buffer : Bytes) (fill c : ℕ)
    → 1 ≤ fill
    → 1 ≤ length buffer
    → take fill (set_front buffer c) ≡ c ∷ drop 1 (take fill buffer)
take-set_front buffer zero c f n = absurd (omega arith)
take-set_front [] (suc fill) c f n = absurd (omega arith)
take-set_front (x ∷ buffer) (suc fill) c f n = refl

module _ (destroys : Bool) where
  calls-report :
      (r : RawExecRelay) (call : HandlerCall)
      → (report destroys r call).calls ≡ r.calls ++ call ∷ []
  unfolding report destroy
  calls-report r call = ground arith

  Finishes : RawExecRelay → ℤ → HandlerCall → Type 0
  Finishes r status call =
      (q : RawExecRelay) × (on_child_process_exit destroys r status ≡ some q)
      × (q.calls ≡ r.calls ++ call ∷ [])

  exit_without_output :
      (r : RawExecRelay) (status : ℤ)
      → r.response_pipe ≡ false
      → r.response_fill ≡ 1
      → Finishes r status (status_call status (status_response status))
  unfolding Finishes on_child_process_exit finish finish_with report
  exit_without_output r status closed bare =
      let call = status_call status (status_response status) in
      let ended = record r { pidfd = false; status = some status } in
      (report destroys ended call, ground arith, calls-report ended call)

  exit_with_output :
      (r : RawExecRelay) (status : ℤ)
      → r.response_pipe ≡ false
      → 1 < r.response_fill
      → Finishes r status (
          status_call status (
            take r.response_fill
              (set_front r.response_buffer (first_byte (status_response status)))))
  unfolding Finishes on_child_process_exit finish finish_with report
  exit_with_output r status closed more =
      let buffer = set_front r.response_buffer (first_byte (status_response status)) in
      let call = status_call status (take r.response_fill buffer) in
      let ended = record r { pidfd = false; status = some status; response_buffer = buffer } in
      (report destroys ended call, ground arith, calls-report ended call)

  -- The exit with the output closed: one call, as the status and the output ask for.
  exit-Finishes :
      (r : RawExecRelay) (status : ℤ) (output : Bytes)
      → r.response_pipe ≡ false
      → IsSound r
      → collected r ≡ take output_size output
      → Finishes r status (status_call status (raw_response status output))
  exit-Finishes r status [] closed sound got =
      exit_without_output r status closed (omega (arith, length-collected r sound, ap length got))
  exit-Finishes r status (c ∷ output) closed sound got =
      let more : 1 < r.response_fill = omega (arith, length-collected r sound, ap length got) in
      let shape : take r.response_fill
            (set_front r.response_buffer (first_byte (status_response status)))
          ≡ raw_response status (c ∷ output) =
        take-set_front r.response_buffer r.response_fill _ (omega (arith, sound))
          (omega (arith, sound))
        ∙ ap (◌∷◌ (first_byte (status_response status))) got in
      subst (λ t. Finishes r status (status_call status t)) shape
        (exit_with_output r status closed more)

  ready_end :
      (r : RawExecRelay)
      → IsRunning r
      → on_response_pipe_ready destroys r readable (finds [])
        ≡ some (record ((try_read destroys r (finds [])).0) { response_pipe = false })
  unfolding on_response_pipe_ready after_read close_response_pipe try_read discard append
  ready_end r run = ground (arith, take_short {A = ℕ} (buffer_size - r.response_fill) [])

  -- The end of the output and then the exit.
  end_then_exit :
      (r : RawExecRelay) (status : ℤ) (output : Bytes)
      → IsRunning r
      → collected r ≡ take output_size output
      → (q : RawExecRelay) × ((on_response_pipe_ready destroys r readable (finds []) >>= λ p.
            on_child_process_exit destroys p status)
          ≡ some q)
        × (q.calls ≡ r.calls ++ status_call status (raw_response status output) ∷ [])
  unfolding Finishes
  end_then_exit r status output run got =
      let read = (try_read destroys r (finds [])).0 in
      let closed : RawExecRelay = record read { response_pipe = false } in
      let (sound, got') = try_read-finds destroys r run.sound [] in
      let sound' : IsSound closed = record {
        size = sound.size;
        first = sound.first;
        bounded = sound.bounded;
      } in
      let all : collected closed ≡ take output_size output =
        got'
        ∙ ap (take output_size) (append-nil (collected r))
        ∙ sym (short_collected r run.sound)
        ∙ got in
      let (q, e, calls) = exit-Finishes closed status output refl sound' all in
      (
        q,
        rw (ready_end r run) e,
        calls
            ∙ ap
                (λ (l : List HandlerCall).
                  l ++ status_call status (raw_response status output) ∷ [])
                (try_read-kept destroys r []).3,
      )

  -- For a running program without output or calls yet, whose output is read in pieces that are not
  -- empty and then to its end, and which then exits, there is one call of the handler: that of the
  -- exit status, with the response made of the status and the first 255 bytes of the output.
  pub raw_exec_outcome :
      (r : RawExecRelay) (chunks : List Bytes) (status : ℤ)
      → IsRunning r
      → collected r ≡ []
      → r.calls ≡ []
      → All (λ c. c ≢ []) chunks
      → (q : RawExecRelay) × ((read_all destroys r chunks >>= λ p.
            on_response_pipe_ready destroys p readable (finds []) >>= λ p'.
            on_child_process_exit destroys p' status)
          ≡ some q)
        × (q.calls ≡ status_call status (raw_response status (concat chunks)) ∷ [])
  unfolding Collects
  raw_exec_outcome r chunks status run nothing_yet quiet some_chunks =
      let (p, e, run', got, calls) = read_all-Collects destroys r chunks run some_chunks in
      let all : collected p ≡ take output_size (concat chunks) =
        got ∙ ap (λ (t : Bytes). take output_size (t ++ concat chunks)) nothing_yet in
      let (q, e', calls') = end_then_exit p status (concat chunks) run' all in
      (
        q,
        rw e e',
        calls'
            ∙ ap
                (λ (l : List HandlerCall).
                  l ++ status_call status (raw_response status (concat chunks)) ∷ [])
                (calls ∙ quiet),
      )
