-- ===== src/Relay/Remote.antt =====
-- src/RemoteRelay.hxx and src/RemoteRelay.cxx: the relay that connects to another QMQP server.
use qrelay.Common.{ℕ, List, [], Option, none, some, Bytes, codes}
use qrelay.Libcommon.{Generator}
use qrelay.Qmqp.{QmqpMail}
use qrelay.Relay.Basic.{HandlerCall, on_relay_error, connect_error, make_request}

-- `requested` is what the NetstringClient was asked to send, `connecting` the address and the
-- timeout in seconds of the ConnectSocket, until it has connected or failed.
pub record RemoteRelay : Type 0 where
  pub request : List Bytes
  pub connecting : Option (Bytes × ℕ)
  pub requested : Option (List Bytes)

-- The constructor.
unfoldable pub make_remote_relay : Generator → QmqpMail → List Bytes → RemoteRelay
unfolding make_request
make_remote_relay generator mail additional_headers = record {
  request = make_request generator mail additional_headers;
  connecting = none;
  requested = none;
}

-- `RemoteRelay::Start`.
unfoldable pub start : RemoteRelay → Bytes → RemoteRelay
start r address = record r { connecting = some (address, 20) }

-- `RemoteRelay::OnSocketConnectSuccess`.
unfoldable pub on_socket_connect_success : RemoteRelay → RemoteRelay
on_socket_connect_success r = record r { requested = some r.request; request = [] }

-- `RemoteRelay::OnSocketConnectError`.
unfoldable pub on_socket_connect_error : HandlerCall
on_socket_connect_error = on_relay_error (codes "Zconnect failed") connect_error
