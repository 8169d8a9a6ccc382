-- ===== src/Connection/Handler/Request.antt =====
-- The invariant and the other events: `OnRequest`, `OnDisconnect`, `OnError`, `OnRelayTimeout` and
-- the relay's calls (src/Connection.cxx).
use qrelay.Common.{
  ℕ, ◌≡◌, ◌≢◌, ◌⊎◌, inl, inr, refl, sym, ap, ◌∙◌, true, false, [], Option, none, some, arith, Bytes,
  codes, is_some, subst,
}
use qrelay.Libcommon.{Text, TextLaws, Address, Strip}
use qrelay.Qmqp
use qrelay.Qmqp.{
  QmqpMail, ParseResult, success, malformed, bad_address, too_many_recipients, no_mail,
}
use qrelay.Qmqp.Grammar.{Submission}
use qrelay.Qmqp.Parse.{parse-Submission}
use qrelay.MutableMail
use qrelay.MutableMail.{MutableMail, make_mutable_mail}
use qrelay.Relay.Basic.{HandlerCall, IsValidCall}
use qrelay.Connection.{
  Connection, init, received, lua, relaying, Send, waits, is_init, is_end, finish, on_relay_call,
  on_relay_timeout, on_error, on_disconnect,
}
use qrelay.Connection.Finish.{
  logged, closed, answered, finish_lem, disconnect_lem, client_error_lem,
}
use qrelay.Connection.Handler.{on_request, with_parsed}
use qrelay.Connection.Handler.Invariant.{Inv, Safe, finish-Safe, call-Safe}

-- The mail that is kept for the Lua handler.
abbrev pub stripped : Strip → Bytes → QmqpMail → MutableMail
stripped strip payload mail = record (make_mutable_mail payload) {
  mail = record mail { message = strip.strip_left mail.message };
}

-- What the client is told of a payload that is not taken.
abbrev pub refusal : ParseResult → Bytes
refusal success = []
refusal malformed = codes "Dmalformed input"
refusal bad_address = codes "Dbad address"
refusal too_many_recipients = codes "Dtoo many recipients"

module _ (truncate : Bytes → ℕ → Bytes) where
  -- The connection without its client, after at most one log datagram.
  hung_up-Inv :
      (c : Connection) (message : Bytes) (mail : Option MutableMail)
      → c.responses ≡ []
      → c.logs ≡ []
      → Inv (closed truncate (logged truncate c message mail))
  hung_up-Inv c message none quiet unlogged = ground arith
  hung_up-Inv c message (some mail) quiet unlogged = ground arith

  pub phase_not_end :
      (c : Connection)
      → (c.state ≡ init) ⊎ ((c.state ≡ lua) ⊎ (c.state ≡ relaying))
      → is_end c.state ≡ false
  phase_not_end c h = ground arith

  pub disconnect-Safe :
      (c : Connection) → c.deleted ≡ false → Inv c → Safe (on_disconnect truncate c)
  disconnect-Safe c alive v =
      subst Safe (sym (disconnect_lem truncate c c.mail_ptr refl (phase_not_end c (v.phase alive))))
        (hung_up-Inv c _ c.mail_ptr (v.unanswered alive) (v.unlogged alive))

  pub error-Safe : (c : Connection) → c.deleted ≡ false → Inv c → Safe (on_error truncate c)
  error-Safe c alive v =
      subst Safe
        (sym (client_error_lem truncate c c.mail_ptr refl (phase_not_end c (v.phase alive))))
        (hung_up-Inv c _ c.mail_ptr (v.unanswered alive) (v.unlogged alive))

  pub timeout_lem :
      (c : Connection) (answer : Send)
      → finish truncate (record c { timer = false }) (codes "Ztimeout") answer
        ≡ on_relay_timeout truncate c answer
  unfolding on_relay_timeout
  timeout_lem c answer = refl

  pub timeout-Safe :
      (c : Connection) (answer : Send)
      → c.deleted ≡ false
      → Inv c
      → c.timer ≡ true
      → answer ≢ waits
      → Safe (on_relay_timeout truncate c answer)
  timeout-Safe c answer alive v t w = subst Safe (timeout_lem c answer) (
      finish-Safe truncate (record c { timer = false }) _ _ answer
        (ap is_init (v.timer_relays alive t)) (ap is_end (v.timer_relays alive t))
        (v.unanswered alive) (v.unlogged alive) refl w)

  pub relay-Safe :
      (c : Connection) (call : HandlerCall) (answer : Send)
      → c.deleted ≡ false
      → Inv c
      → is_some c.relay_operation ≡ true
      → IsValidCall call
      → answer ≢ waits
      → Safe (on_relay_call truncate c call answer)
  relay-Safe c call answer alive v r ok w =
      call-Safe truncate c call answer (ap is_init (v.relay_relays alive r))
        (ap is_end (v.relay_relays alive r)) (v.unanswered alive) (v.unlogged alive) ok w

  module _ (text : Text) (address : Address) (strip : Strip) where
    -- What becomes of a new connection with a request: a mail for the Lua handler, or a response.
    pub on_request_success :
        (c : Connection) (payload : Bytes) (mail : QmqpMail) (answer : Send)
        → c.state ≡ init
        → Qmqp.parse text address no_mail payload ≡ some (mail, success)
        → on_request truncate text address strip c payload answer
          ≡ some (record c { mail_ptr = some (stripped strip payload mail); state = lua })
    unfolding on_request with_parsed MutableMail.parse
    on_request_success c payload mail answer i parsed = rw (i, parsed)

    pub on_request_refused :
        (c : Connection) (payload : Bytes) (mail : QmqpMail) (result : ParseResult) (answer : Send)
        → c.state ≡ init
        → Qmqp.parse text address no_mail payload ≡ some (mail, result)
        → result ≢ success
        → on_request truncate text address strip c payload answer
          ≡ finish truncate (record c { state = received }) (refusal result) answer
    unfolding on_request with_parsed MutableMail.parse
    on_request_refused c payload mail success answer i parsed r = absurd (r refl)
    on_request_refused c payload mail malformed answer i parsed r = rw (i, parsed)
    on_request_refused c payload mail bad_address answer i parsed r = rw (i, parsed)
    on_request_refused c payload mail too_many_recipients answer i parsed r = rw (i, parsed)

    request-Safe :
        (c : Connection) (payload : Bytes) (mail : QmqpMail) (result : ParseResult) (answer : Send)
        → Qmqp.parse text address no_mail payload ≡ some (mail, result)
        → c.deleted ≡ false
        → Inv c
        → c.state ≡ init
        → answer ≢ waits
        → Safe (on_request truncate text address strip c payload answer)
    request-Safe c payload mail success answer parsed alive v i w =
        subst Safe (sym (on_request_success c payload mail answer i parsed)) (ground arith)
    request-Safe c payload mail malformed answer parsed alive v i w =
        subst Safe (sym (on_request_refused c payload mail malformed answer i parsed (λ e. cc))) (
          finish-Safe truncate (record c { state = received }) _ _ answer refl refl
            (v.unanswered alive) (v.unlogged alive) refl w)
    request-Safe c payload mail bad_address answer parsed alive v i w =
        subst Safe (sym (on_request_refused c payload mail bad_address answer i parsed (λ e. cc))) (
          finish-Safe truncate (record c { state = received }) _ _ answer refl refl
            (v.unanswered alive) (v.unlogged alive) refl w)
    request-Safe c payload mail too_many_recipients answer parsed alive v i w =
        subst Safe
          (sym (on_request_refused c payload mail too_many_recipients answer i parsed (λ e. cc)))
          (finish-Safe truncate (record c { state = received }) _ _ answer refl refl
            (v.unanswered alive) (v.unlogged alive) refl w)

    -- Every payload.
    pub any_request-Safe :
        (laws : TextLaws text) (c : Connection) (payload : Bytes) (answer : Send)
        → c.deleted ≡ false
        → Inv c
        → c.state ≡ init
        → answer ≢ waits
        → Safe (on_request truncate text address strip c payload answer)
    any_request-Safe laws c payload answer alive v i w =
        let (mail, result, parsed, spec) = parse-Submission text address laws payload in
        request-Safe c payload mail result answer parsed alive v i w

    refused_answered :
        (c : Connection) (payload : Bytes) (mail : QmqpMail) (result : ParseResult) (answer : Send)
        → c.state ≡ init
        → c.mail_ptr ≡ none
        → answer ≢ waits
        → Qmqp.parse text address no_mail payload ≡ some (mail, result)
        → result ≢ success
        → on_request truncate text address strip c payload answer
          ≡ some
              (closed truncate (answered truncate (record c { state = received }) (refusal result)))
    refused_answered c payload mail success answer i m w parsed r = absurd (r refl)
    refused_answered c payload mail malformed answer i m w parsed r =
        on_request_refused c payload mail malformed answer i parsed r
        ∙ finish_lem truncate (record c { state = received }) none _ _ answer m refl refl w
    refused_answered c payload mail bad_address answer i m w parsed r =
        on_request_refused c payload mail bad_address answer i parsed r
        ∙ finish_lem truncate (record c { state = received }) none _ _ answer m refl refl w
    refused_answered c payload mail too_many_recipients answer i m w parsed r =
        on_request_refused c payload mail too_many_recipients answer i parsed r
        ∙ finish_lem truncate (record c { state = received }) none _ _ answer m refl refl w

    -- In state INIT, without a mail and with a send that does not wait, a request is handled as
    -- the grammar of submissions says. A submission is kept, its message stripped, for the Lua
    -- handler; for any other payload the client gets the text of the result, and the connection is
    -- gone, without a log datagram.
    pub on_request_outcome :
        (laws : TextLaws text) (c : Connection) (payload : Bytes) (answer : Send)
        → c.state ≡ init
        → c.mail_ptr ≡ none
        → answer ≢ waits
        → (mail : QmqpMail) × (result : ParseResult) × Submission address payload mail result
          × (((result ≡ success)
                × (on_request truncate text address strip c payload answer
                    ≡ some
                        (record c { mail_ptr = some (stripped strip payload mail); state = lua })))
              ⊎ ((result ≢ success)
                  × (on_request truncate text address strip c payload answer
                      ≡ some (
                          closed truncate
                            (answered truncate (record c { state = received }) (refusal result))))))
    on_request_outcome laws c payload answer i m w =
        let (mail, result, parsed, spec) = parse-Submission text address laws payload in
        (mail, result, spec, either mail result parsed)
      where
        either :
            (mail : QmqpMail) (result : ParseResult)
            → Qmqp.parse text address no_mail payload ≡ some (mail, result)
            → ((result ≡ success)
                × (on_request truncate text address strip c payload answer
                    ≡ some
                        (record c { mail_ptr = some (stripped strip payload mail); state = lua })))
              ⊎ ((result ≢ success)
                  × (on_request truncate text address strip c payload answer
                      ≡ some (
                          closed truncate
                            (answered truncate (record c { state = received }) (refusal result)))))
        either mail success parsed = inl (refl, on_request_success c payload mail answer i parsed)
        either mail malformed parsed =
            inr (λ e. cc, refused_answered c payload mail malformed answer i m w parsed (λ e. cc))
        either mail bad_address parsed =
            inr (λ e. cc, refused_answered c payload mail bad_address answer i m w parsed (λ e. cc))
        either mail too_many_recipients parsed = inr (
          λ e. cc,
          refused_answered c payload mail too_many_recipients answer i m w parsed (λ e. cc),
        )
