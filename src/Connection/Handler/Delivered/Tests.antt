-- ===== src/Connection/Handler/Delivered/Tests.antt =====
-- A relaying connection (src/Connection.cxx) and programs that it runs.
use qrelay.Common.{
  ℕ, zero, suc, pos, ◌≡◌, refl, true, false, [], ◌∷◌, none, some, arith, Bytes, codes, concat,
  ◌>>=◌,
}
use qrelay.Libcommon.Samples.{sample_arrays, sample_truncate}
use qrelay.Qmqp.{no_mail}
use qrelay.MutableMail.{MutableMail, make_mutable_mail}
use qrelay.Relay.Basic.{HandlerCall}
use qrelay.Relay.Exec
use qrelay.Relay.Exec.{ExecRelay, on_response}
use qrelay.Relay.RawExec.{RawExecRelay, finds, on_response_pipe_ready, on_child_process_exit}
use qrelay.Relay.RawExec.Outcome.{readable, read_all, raw_response}
use qrelay.Connection.{Connection, relaying, sends, fails, make_connection, on_relay_call}
use qrelay.Connection.Handler.Delivered.{delivered, exec_delivered, raw_exec_delivered}

abbrev sent_mail : MutableMail
sent_mail = record (make_mutable_mail []) {
  mail = record no_mail { sender = codes "f@o"; recipients = codes "b@r" ∷ [] };
}

abbrev relaying_one : Connection
relaying_one = record (make_connection none true) { state = relaying; mail_ptr = some sent_mail }

abbrev program : ExecRelay
program = record {
  request = [];
  pidfd = true;
  deferred_response = none;
  requested = some [];
  killed = false;
  calls = [];
}

exec_delivered_example :
    (call : HandlerCall) × ((Exec.on_child_process_exit sample_arrays
        (on_response program (codes "Kok"))
        (pos 0)).calls
      ≡ call ∷ [])
    × (on_relay_call sample_truncate relaying_one call sends
        ≡ some (delivered sample_truncate relaying_one sent_mail (codes "Kok")))
exec_delivered_example =
    exec_delivered sample_truncate sample_arrays program b'K' (codes "ok") (pos 0) relaying_one
      sent_mail sends (record { child = refl; no_answer = refl; no_call = refl }) refl refl refl
      refl refl refl (λ e. cc)

abbrev blank : ℕ → Bytes
blank zero = []
blank (suc n) = 0 ∷ blank n

abbrev raw_program : RawExecRelay
raw_program = record {
  pidfd = true;
  pending = codes "hi";
  written = [];
  request_pipe = true;
  response_pipe = true;
  response_buffer = blank 256;
  response_fill = 1;
  status = none;
  killed = false;
  deleted = false;
  calls = [];
}

raw_exec_delivered_example :
    (q : RawExecRelay) × (call : HandlerCall) × ((read_all true raw_program
          (codes "oo" ∷ codes "ps" ∷ [])
        >>= λ p. on_response_pipe_ready true p readable (finds []) >>= λ p'.
            on_child_process_exit true p' (pos 256))
      ≡ some q)
    × (q.calls ≡ call ∷ [])
    × (on_relay_call sample_truncate relaying_one call fails
        ≡ some (
            delivered sample_truncate relaying_one sent_mail
              (raw_response (pos 256) (concat (codes "oo" ∷ codes "ps" ∷ [])))))
raw_exec_delivered_example =
    raw_exec_delivered sample_truncate true raw_program (codes "oo" ∷ codes "ps" ∷ []) (pos 256)
      relaying_one sent_mail fails
      (record {
        child = refl;
        pipe = refl;
        alive = refl;
        sound = record { size = refl; first = omega arith; bounded = omega arith };
      })
      refl refl ((λ e. cc), ((λ e. cc), tt)) refl refl (λ e. cc)
