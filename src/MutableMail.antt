-- ===== src/MutableMail.antt =====
-- src/MutableMail.hxx and src/MutableMail.cxx: a mail that can be edited. The string_views of the
-- base class are the texts that they refer to, so moving the object changes nothing.
use qrelay.Common.{List, [], ◌∷◌, ◌++◌, Option, some, Bytes, codes, ◌>>=◌}
use qrelay.Libcommon.{Text, Address}
use qrelay.Qmqp
use qrelay.Qmqp.{QmqpMail, ParseResult, no_mail}

pub record MutableMail : Type 0 where
  pub mail : QmqpMail
  pub open mail use *
  pub buffer : Bytes
  pub sender_buffer : Bytes
  pub headers : List Bytes
  pub account : Bytes

-- The constructor.
abbrev pub make_mutable_mail : Bytes → MutableMail
make_mutable_mail buffer = record {
  mail = no_mail;
  buffer = buffer;
  sender_buffer = [];
  headers = [];
  account = [];
}

-- `MutableMail::Free`.
unfoldable pub free : MutableMail → MutableMail
free m = record m { mail = no_mail; buffer = []; sender_buffer = []; headers = []; account = [] }

-- `MutableMail::SetSender`: `sender` refers to the object's own copy.
unfoldable pub set_sender : MutableMail → Bytes → MutableMail
set_sender m new_sender = record m {
  sender_buffer = new_sender;
  mail = record (m.mail) { sender = new_sender };
}

-- `"{}: {}\r\n"`.
abbrev pub header_line : Bytes → Bytes → Bytes
header_line name value = name ++ (codes ": " ++ (value ++ 13 ∷ 10 ∷ []))

-- `MutableMail::InsertHeader`.
unfoldable pub insert_header : MutableMail → Bytes → Bytes → MutableMail
insert_header m name value = record m { headers = header_line name value ∷ m.headers }

module _ (text : Text) (address : Address) where
  abbrev with_result : MutableMail → QmqpMail × ParseResult → Option (MutableMail × ParseResult)
  with_result m (mail, result) = some (record m { mail = mail }, result)

  -- `MutableMail::Parse`.
  unfoldable pub parse : MutableMail → Option (MutableMail × ParseResult)
  parse m = Qmqp.parse text address m.mail m.buffer >>= with_result m
