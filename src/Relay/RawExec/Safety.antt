-- ===== src/Relay/RawExec/Safety.antt =====
-- The invariant of `RawExecRelay` (src/RawExecRelay.cxx) between two events, and the faults.
use qrelay.Common.{
  subst, ℕ, ◌≤◌, ◌≡◌, ◌≢◌, refl, sym, ap, ◌∙◌, inl, inr, ℤ, Bool, true, false, not, ◌&&◌, List, [],
  ◌∷◌, Option, none, some, arith, Bytes, codes, length, length-append, ltb, Bool-cases,
  Option-cases,
}
use qrelay.Relay.Basic.{HandlerCall, on_relay_error, read_error}
use qrelay.Relay.RawExec.{
  RawExecRelay, Events, Read, read_fails, finds, Write, takes, finishes, write_fails, try_read,
  try_write, discard, append, failed_read, set_front, first_byte, status_response, finish,
  finish_with, after_read, close_response_pipe, report, destroy, on_response_pipe_ready,
  on_child_process_exit,
}
use qrelay.Relay.RawExec.Buffer.{IsSound, try_read-finds, try_read-kept}

-- What holds between two events: the buffer is sound, `status` is written once the child is gone,
-- and when the child is gone and its output closed, the handler was called.
pub record Inv (r : RawExecRelay) : Type 0 where
  pub sound : IsSound r
  pub known : r.deleted ≡ false → r.pidfd ≡ false → r.status ≢ none
  pub reported : r.response_pipe ≡ false → r.pidfd ≡ false → 1 ≤ length r.calls

length-set_front : (buffer : Bytes) (c : ℕ) → length (set_front buffer c) ≡ length buffer
length-set_front [] c = refl
length-set_front (x ∷ buffer) c = refl

module _ (destroys : Bool) where
  report-Inv :
      (r : RawExecRelay) (call : HandlerCall)
      → IsSound r
      → (r.deleted ≡ false → r.pidfd ≡ false → r.status ≢ none)
      → Inv (report destroys r call)
  unfolding report destroy
  report-Inv r call s k = ground (arith, length-append r.calls (call ∷ []))

  -- Without a fault, and into a state with the invariant.
  abbrev pub Safe : Option RawExecRelay → Type 0
  Safe none = ⊥
  Safe (some q) = Inv q

  finish_with-Safe :
      (r : RawExecRelay) (status : ℤ)
      → IsSound r
      → r.status ≡ some status
      → Safe (finish_with destroys r (some status))
  unfolding finish_with
  finish_with-Safe r status s known = elim (Bool-cases (ltb 1 r.response_fill)) [
    | inr bare ↦ rw bare (report-Inv r _ s (λ _ _. cc))
    | inl more ↦
        let c = first_byte (status_response status) in
        let sound : IsSound (record r { response_buffer = set_front r.response_buffer c }) =
          record {
            size = length-set_front r.response_buffer c ∙ s.size;
            first = s.first;
            bounded = s.bounded;
          } in
        rw more (
          report-Inv (record r { response_buffer = set_front r.response_buffer c }) _ sound
            (λ _ _. cc))
  ]

  pub finish_lem :
      (r : RawExecRelay)
      → r.response_pipe ≡ false
      → r.pidfd ≡ false
      → finish destroys r ≡ finish_with destroys r r.status
  unfolding finish
  finish_lem r closed gone = ground arith

  finish-Safe :
      (r : RawExecRelay)
      → IsSound r
      → r.response_pipe ≡ false
      → r.pidfd ≡ false
      → r.status ≢ none
      → Safe (finish destroys r)
  finish-Safe r s closed gone known = elim (Option-cases r.status) [
    | inl e ↦ absurd (known e)
    | inr (status, e) ↦
        subst Safe (sym (finish_lem r closed gone ∙ ap (finish_with destroys r) e))
          (finish_with-Safe r status s e)
  ]

  abbrev pub closed : RawExecRelay → RawExecRelay
  closed r = record r { response_pipe = false }

  pub close_running :
      (r : RawExecRelay)
      → r.deleted ≡ false
      → r.pidfd ≡ true
      → close_response_pipe destroys r ≡ some (closed r)
  unfolding close_response_pipe
  close_running r alive child = ground arith

  pub close_gone :
      (r : RawExecRelay)
      → r.deleted ≡ false
      → r.pidfd ≡ false
      → close_response_pipe destroys r ≡ finish destroys (closed r)
  unfolding close_response_pipe
  close_gone r alive gone = ground arith

  -- Closing the response pipe of an object that was not deleted.
  close-Safe :
      (r : RawExecRelay) → r.deleted ≡ false → Inv r → Safe (close_response_pipe destroys r)
  close-Safe r alive v =
      let sound : IsSound (closed r) = record {
        size = v.sound.size;
        first = v.sound.first;
        bounded = v.sound.bounded;
      } in
      elim (Bool-cases r.pidfd) [
        | inl child ↦
            subst Safe (sym (close_running r alive child))
              (record { sound = sound; known = v.known; reported = λ _ gone. cc })
        | inr gone ↦
            subst Safe (sym (close_gone r alive gone))
              (finish-Safe (closed r) sound refl gone (v.known alive gone))
      ]

  pub exit_open :
      (r : RawExecRelay) (status : ℤ)
      → r.response_pipe ≡ true
      → on_child_process_exit destroys r status
        ≡ some (record r { pidfd = false; status = some status })
  unfolding on_child_process_exit
  exit_open r status pipe = ground arith

  pub exit_closed :
      (r : RawExecRelay) (status : ℤ)
      → r.response_pipe ≡ false
      → on_child_process_exit destroys r status
        ≡ finish destroys (record r { pidfd = false; status = some status })
  unfolding on_child_process_exit
  exit_closed r status pipe = ground arith

  -- The exit of the child.
  pub exit-Safe :
      (r : RawExecRelay) (status : ℤ) → Inv r → Safe (on_child_process_exit destroys r status)
  exit-Safe r status v =
      let ended : RawExecRelay = record r { pidfd = false; status = some status } in
      let sound : IsSound ended = record {
        size = v.sound.size;
        first = v.sound.first;
        bounded = v.sound.bounded;
      } in
      elim (Bool-cases r.response_pipe) [
        | inl pipe ↦
            subst Safe (sym (exit_open r status pipe))
              (record { sound = sound; known = λ _ _. λ e. cc; reported = λ shut _. cc })
        | inr pipe ↦
            subst Safe (sym (exit_closed r status pipe))
              (finish-Safe ended sound pipe refl (λ e. cc))
      ]

  -- A write of the request, whatever comes of it.
  pub write-Inv : (r : RawExecRelay) (write : Write) → Inv r → Inv (try_write destroys r write)
  unfolding try_write report destroy
  write-Inv r (takes n) v = ground arith
  write-Inv r finishes v = ground arith
  write-Inv r write_fails v = report-Inv r _ v.sound v.known

  pub ready_closes :
      (r : RawExecRelay) (events : Events) (read : Read)
      → events.hangup ≡ true
      → events.others ≡ false
      → on_response_pipe_ready destroys r events read ≡ close_response_pipe destroys r
  unfolding on_response_pipe_ready
  ready_closes r events read h o = ground arith

  pub ready_reads :
      (r : RawExecRelay) (events : Events) (read : Read)
      → events.hangup && not events.others ≡ false
      → on_response_pipe_ready destroys r events read
        ≡ after_read destroys events.hangup (try_read destroys r read)
  unfolding on_response_pipe_ready
  ready_reads r events read h = rw h

  after_read-Safe :
      (hangup more : Bool) (q : RawExecRelay)
      → q.deleted ≡ false
      → Inv q
      → Safe (after_read destroys hangup (q, more))
  unfolding after_read
  after_read-Safe true true q alive v = close-Safe q alive v
  after_read-Safe true false q alive v = close-Safe q alive v
  after_read-Safe false true q alive v = v
  after_read-Safe false false q alive v = close-Safe q alive v

  try_read-Inv :
      (r : RawExecRelay) (bytes : Bytes) → Inv r → Inv (try_read destroys r (finds bytes)).0
  try_read-Inv r bytes v =
      let (child, pipe, alive, calls, status) = try_read-kept destroys r bytes in
      record {
        sound = (try_read-finds destroys r v.sound bytes).0;
        known = λ d g e. v.known (sym alive ∙ d) (sym child ∙ g) (sym status ∙ e);
        reported = λ shut gone.
            subst (λ (l : List HandlerCall). 1 ≤ length l) (sym calls)
              (v.reported (sym pipe ∙ shut) (sym child ∙ gone));
      }

  pub failed_read_lem :
      (r : RawExecRelay)
      → try_read destroys r read_fails
        ≡ (report destroys r (on_relay_error (codes "Zread error") read_error), true)
  unfolding try_read discard append failed_read
  failed_read_lem r = ground arith

  after_failed_read : (q : RawExecRelay) → Inv q → Safe (after_read destroys false (q, true))
  unfolding after_read
  after_failed_read q v = v

  -- An event of the response pipe is safe, unless its read fails while the event also says that
  -- the pipe was hung up.
  pub ready-Safe :
      (r : RawExecRelay) (events : Events) (read : Read)
      → r.deleted ≡ false
      → Inv r
      → (events.hangup ≡ true → events.others ≡ true → read ≢ read_fails)
      → Safe (on_response_pipe_ready destroys r events read)
  ready-Safe r events read alive v fine = elim (Bool-cases (events.hangup && not events.others)) [
    | inl only ↦
        subst Safe (sym (ready_closes r events read (ground arith) (ground arith)))
          (close-Safe r alive v)
    | inr reads ↦ subst Safe (sym (ready_reads r events read reads)) (go read fine reads)
  ]
    where
      go :
          (read : Read)
          → (events.hangup ≡ true → events.others ≡ true → read ≢ read_fails)
          → events.hangup && not events.others ≡ false
          → Safe (after_read destroys events.hangup (try_read destroys r read))
      go (finds bytes) fine reads =
          let (child, pipe, same, calls, status) = try_read-kept destroys r bytes in
          after_read-Safe events.hangup _ _ (same ∙ alive) (try_read-Inv r bytes v)
      go read_fails fine reads = elim (Bool-cases events.hangup) [
        | inl hangup ↦ absurd (fine hangup (ground arith) refl)
        | inr calm ↦
            rw (calm, failed_read_lem r) (after_failed_read _ (report-Inv r _ v.sound v.known))
      ]

-- Where the handler deletes the relay, an event with HANGUP and another flag whose read fails is a
-- fault: the pipe of the deleted object is closed.
pub failed_read_hangup_faults :
    (r : RawExecRelay) (events : Events)
    → events.hangup ≡ true
    → events.others ≡ true
    → on_response_pipe_ready true r events read_fails ≡ none
unfolding on_response_pipe_ready after_read close_response_pipe try_read discard append failed_read
    report destroy
failed_read_hangup_faults r events hangup others = ground arith
