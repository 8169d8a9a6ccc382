-- ===== src/Connection/Finish.antt =====
-- `Finish`, the error handlers and the destructor of `QmqpRelayConnection` (src/Connection.cxx):
-- the log datagram, the response, and the end.
use qrelay.Common.{
  ℕ, ◌≡◌, ◌≢◌, ◌⊎◌, inl, refl, ap, ◌∙◌, true, false, [], ◌∷◌, ◌++◌, Option, none, some, arith,
  Bytes, codes, ◌>>=◌, if◌then◌else◌,
}
use qrelay.MutableMail.{MutableMail}
use qrelay.Datagram.{make_datagram}
use qrelay.Connection.{
  Connection, end, Send, sends, fails, waits, is_init, is_end, is_relaying, log, log_mail,
  log_if_mail, destroy, gone, on_error, on_disconnect, send_response, finish,
}

module _ (truncate : Bytes → ℕ → Bytes) where
  -- The connection as `Log` leaves it.
  abbrev pub logged : Connection → Bytes → Option MutableMail → Connection
  logged c message none = c
  logged c message (some mail) =
      if c.logging
      then record c {
        logs = c.logs ++ make_datagram truncate (is_relaying c.state) mail message ∷ [];
        state = end;
        mail_ptr = none;
      }
      else c

  -- The connection when it is gone.
  abbrev pub closed : Connection → Connection
  closed c = record c { relay_operation = none; timer = false; deleted = true }

  log_if_mail_lem :
      (c : Connection) (message : Bytes) (mail : Option MutableMail)
      → c.mail_ptr ≡ mail
      → is_end c.state ≡ false
      → log_if_mail truncate c message ≡ some (logged c message mail)
  unfolding log_if_mail log log_mail
  log_if_mail_lem c message none m e = ground arith
  log_if_mail_lem c message (some mail) m e = ground arith

  -- Nothing is left to log.
  pub IsQuiet : Connection → Type 0
  IsQuiet c = (c.mail_ptr ≡ none) ⊎ ((c.logging ≡ false) × (is_end c.state ≡ false))

  quiet_log :
      (c : Connection) (message : Bytes) → IsQuiet c → log_if_mail truncate c message ≡ some c
  unfolding log_if_mail log log_mail IsQuiet
  quiet_log c message q = ground arith

  logged-IsQuiet :
      (c : Connection) (message : Bytes) (mail : Option MutableMail)
      → c.mail_ptr ≡ mail
      → is_end c.state ≡ false
      → IsQuiet (logged c message mail)
  unfolding IsQuiet
  logged-IsQuiet c message none m e = inl m
  logged-IsQuiet c message (some mail) m e = ground arith

  destroy_lem :
      (c : Connection)
      → destroy truncate c ≡ (log_if_mail truncate c (codes "canceled") >>= gone truncate)
  unfolding destroy
  destroy_lem c = refl

  quiet_destroy : (c : Connection) → IsQuiet c → destroy truncate c ≡ some (closed c)
  quiet_destroy c q =
      destroy_lem c
      ∙ ap (λ (o : Option Connection). o >>= gone truncate) (quiet_log c (codes "canceled") q)

  on_error_lem :
      (c : Connection)
      → on_error truncate c ≡ (log_if_mail truncate c (codes "client error") >>= destroy truncate)
  unfolding on_error
  on_error_lem c = refl

  quiet_error : (c : Connection) → IsQuiet c → on_error truncate c ≡ some (closed c)
  quiet_error c q =
      on_error_lem c
      ∙ ap (λ (o : Option Connection). o >>= destroy truncate)
          (quiet_log c (codes "client error") q)
      ∙ quiet_destroy c q

  abbrev pub answered : Connection → Bytes → Connection
  answered c response = record c { responses = c.responses ++ response ∷ [] }

  answered-IsQuiet : (c : Connection) (response : Bytes) → IsQuiet c → IsQuiet (answered c response)
  unfolding IsQuiet
  answered-IsQuiet c response q = q

  sends_lem :
      (c : Connection) (response : Bytes)
      → send_response truncate response sends c ≡ destroy truncate (answered c response)
  unfolding send_response
  sends_lem c response = refl

  fails_lem :
      (c : Connection) (response : Bytes)
      → send_response truncate response fails c ≡ on_error truncate (answered c response)
  unfolding send_response
  fails_lem c response = refl

  quiet_send :
      (c : Connection) (response : Bytes) (answer : Send)
      → IsQuiet c
      → answer ≢ waits
      → send_response truncate response answer c ≡ some (closed (answered c response))
  quiet_send c response sends q w =
      sends_lem c response ∙ quiet_destroy (answered c response) (answered-IsQuiet c response q)
  quiet_send c response fails q w =
      fails_lem c response ∙ quiet_error (answered c response) (answered-IsQuiet c response q)
  quiet_send c response waits q w = absurd (w refl)

  finish_steps :
      (c : Connection) (d : ℕ) (response : Bytes) (answer : Send)
      → is_init c.state ≡ false
      → is_end c.state ≡ false
      → finish truncate c (d ∷ response) answer
        ≡ (log_if_mail truncate c response >>= send_response truncate (d ∷ response) answer)
  unfolding finish
  finish_steps c d response answer i e = rw (i, e)

  -- `Finish` with a response that is not empty, in any state but INIT and END, and with a send
  -- that does not wait: one log datagram for the mail if there is a mail and a log socket, one
  -- response, and the connection is gone, whether or not the client can be reached.
  pub finish_lem :
      (c : Connection) (mail : Option MutableMail) (d : ℕ) (response : Bytes) (answer : Send)
      → c.mail_ptr ≡ mail
      → is_init c.state ≡ false
      → is_end c.state ≡ false
      → answer ≢ waits
      → finish truncate c (d ∷ response) answer
        ≡ some (closed (answered (logged c response mail) (d ∷ response)))
  finish_lem c mail d response answer m i e w =
      finish_steps c d response answer i e
      ∙ ap (λ (o : Option Connection). o >>= send_response truncate (d ∷ response) answer)
          (log_if_mail_lem c response mail m e)
      ∙ quiet_send (logged c response mail) (d ∷ response) answer
          (logged-IsQuiet c response mail m e) w

  disconnect_destroys : (c : Connection) → on_disconnect truncate c ≡ destroy truncate c
  unfolding on_disconnect
  disconnect_destroys c = refl

  -- A client that hangs up leaves one log datagram, "canceled", for its mail.
  pub disconnect_lem :
      (c : Connection) (mail : Option MutableMail)
      → c.mail_ptr ≡ mail
      → is_end c.state ≡ false
      → on_disconnect truncate c ≡ some (closed (logged c (codes "canceled") mail))
  disconnect_lem c mail m e =
      disconnect_destroys c
      ∙ destroy_lem c
      ∙ ap (λ (o : Option Connection). o >>= gone truncate) (log_if_mail_lem c _ mail m e)

  -- In any state but END, a client whose socket fails leaves one log datagram, "client error", for
  -- its mail if there is a mail and a log socket, and the connection is gone: the destructor logs
  -- nothing more.
  pub client_error_lem :
      (c : Connection) (mail : Option MutableMail)
      → c.mail_ptr ≡ mail
      → is_end c.state ≡ false
      → on_error truncate c ≡ some (closed (logged c (codes "client error") mail))
  client_error_lem c mail m e =
      on_error_lem c
      ∙ ap (λ (o : Option Connection). o >>= destroy truncate) (log_if_mail_lem c _ mail m e)
      ∙ quiet_destroy (logged c (codes "client error") mail) (logged-IsQuiet c _ mail m e)
