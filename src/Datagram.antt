-- ===== src/Datagram.antt =====
-- The log datagram of `QmqpRelayConnection::Log` (src/Connection.cxx), without its time.
use qrelay.Common.{
  c_string, ℕ, ◌+◌, ◌%◌, Bool, true, false, List, [], ◌∷◌, ◌++◌, Option, none, some, Bytes, codes,
  if◌then◌else◌, length, size_mod,
}
use qrelay.MutableMail.{MutableMail}

-- Net::Log::Datagram; `site` is null where the account is not set, and a C string.
pub record Datagram : Type 0 where
  pub site : Option Bytes
  pub message : Bytes
  pub traffic_received : ℕ
  pub traffic_sent : ℕ
  pub size : ℕ

abbrev is_empty : Bytes → Bool
is_empty [] = true
is_empty (c ∷ s) = false

-- `TotalSize`.
unfoldable pub total_size : List Bytes → ℕ
total_size [] = 0
total_size (i ∷ list) = (length i + total_size list) % size_mod

-- The loop of `Log` over the recipients.
abbrev pub log_recipients : Bool → List Bytes → Bytes
log_recipients comma [] = []
log_recipients comma (i ∷ recipients) =
    (if comma then b',' ∷ [] else [])
    ++ (codes "<" ++ (i ++ (codes ">" ++ log_recipients true recipients)))

-- The text of a log datagram.
unfoldable pub log_text : MutableMail → Bytes → Bytes
log_text mail message =
    codes "from=<"
    ++ (mail.sender
        ++ (codes "> to="
            ++ (log_recipients false mail.recipients
                ++ (if is_empty message then [] else b' ' ∷ message))))

-- `truncate` is `Datagram::TruncateMessage`, and `relayed` is `state >= State::RELAYING`.
module _ (truncate : Bytes → ℕ → Bytes) where
  unfoldable pub make_datagram : Bool → MutableMail → Bytes → Datagram
  unfolding log_text total_size
  make_datagram relayed mail message =
      let added_header_size = total_size mail.headers in
      let traffic_received = length mail.buffer in
      record {
        site = if is_empty mail.account then none else some (c_string mail.account);
        message = truncate (log_text mail message) 1024;
        traffic_received = traffic_received;
        traffic_sent = if relayed then (traffic_received + added_header_size) % size_mod else 0;
        size = (length mail.message + added_header_size) % size_mod;
      }
