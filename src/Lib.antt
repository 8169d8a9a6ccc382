-- ===== src/Lib.antt =====
-- qrelay: a QMQP server that hands each mail to a Lua handler and relays it as the handler says.
--
-- Parts and files (paths of the sources are from the repository's root):
--
-- * Netstring (src/djb/NetstringParser.cxx): `parse_netstring` is ParseNetstring; its result is the
--   value, if there is one, and what the input refers to afterwards. Netstring/Grammar has the
--   format itself, Netstring/RoundTrip the printer of test/TestQmqpMail.cxx.
-- * Qmqp (src/djb/QmqpMail.hxx, src/djb/QmqpMail.cxx): `parse` is QmqpMail::Parse. Qmqp/Grammar has
--   submissions as relations, which do not mention the parser.
-- * MutableMail (src/MutableMail.hxx, src/MutableMail.cxx): the mail that the handler edits.
-- * Action (src/Action.hxx): what the handler decides.
-- * LuaMail (src/LMail.cxx): the mail as the Lua handler has it. `insert_header`, `index`,
--   `new_index` and `close` are the methods of IncomingMail; LuaMail/Actions has those that make an
--   action. Lua has values, errors and the checks of an argument: a method takes the arguments
--   behind the object and returns, or raises an error.
-- * Relay/Basic (src/BasicRelay.cxx, src/Handler.hxx): the request that a QMQP relay sends, and the
--   calls of its handler. Relay/Remote (src/RemoteRelay.cxx), Relay/Exec (src/ExecRelay.cxx) and
--   Relay/RawExec (src/RawExecRelay.cxx) are the three relays; Relay/Spawn is what the last two do
--   to start a program, Relay/ExitStatus is src/ExitStatus.hxx. The calls that a relay makes are
--   kept in its state, oldest first.
-- * Datagram and Connection (src/Connection.hxx, src/Connection.cxx): the connection from a client.
--   Connection has the log, the responses and the ends, Connection/Handler the request, the Lua
--   handler's result and the relays, as a step on events. Responses and log datagrams are kept in
--   the state. Connection/Handler/Steps has the paths of events, Connection/Handler/EndToEnd a
--   mail's way to its relay, Connection/Handler/Delivered a relay's call and the client.
-- * CommandLine (src/CommandLine.cxx): `parse_command_line`. Resolver (src/LResolver.cxx): the
--   functions of a configuration that resolve names.
-- * Instance (src/Instance.hxx, src/Instance.cxx, src/Listener.hxx): the process with its
--   listeners, its log socket and the variables of its Lua state; `accept` makes a connection.
-- * Main (src/Main.cxx): `l_qmqp_listen` and the two sets of variables. Main/Load has the
--   configuration file, Main/Run the start, the event loop as a list of events, and the exit
--   status. A script is the list of what it does: it sets a variable, calls qmqp_listen, protected
--   or not, or ends with an error. Exception has what C++ code throws.
-- * Common has the names that all share, Libcommon what is taken from outside.
--
-- Interaction: Connection parses a request (MutableMail, Qmqp, Netstring), keeps the mail for the
-- Lua handler, and by its Action makes a relay with the mail and the headers that this process
-- adds. The relay calls back with a response, and the connection finishes with it. In
-- Connection/Handler a relay's call is an event of the connection. Connection/Session has the
-- connection and its relay in one state: `session_step` takes the events of both in any order,
-- starts the relay, hands on its calls, and destroys it with the connection. A handler's edits and
-- its action are events too; the script's side of them is in LuaMail/Edits and LuaMail/Actions, and
-- both together in LuaMail/Relayed. Main sets up an Instance, whose listeners accept connections;
-- Service follows a mail from there to its relay's request.
--
-- Representation: a byte is a natural number, a string_view the list of the bytes that it refers
-- to. std::size_t and the sums of sizes wrap at 2 ^ 64, written out. Option `none` as the result of
-- a step is a fault: a failed assertion, an access to a deleted object, or a write out of bounds.
--
-- Fuel: the loop over the recipients has the length of its input and one as its fuel; a round takes
-- at least one byte of it. The decimal print has the number and one.
--
-- Outside: the submodule libcommon is not part of the repository. Split and ParseIntegerTo (Text),
-- VerifyEmailAddress (Address), NetstringGenerator (Generator), AllocatedArray's comparison with
-- nullptr (Arrays), StripLeft (Strip), Datagram::TruncateMessage and what LuaMail takes
-- (LuaLibrary: numbers, the parser of socket addresses, CheckChars) are parameters, with the laws
-- that the code relies on; Libcommon/Samples has functions that meet them. What the system does
-- (pipes, spawning, reads and writes, whether a response can be sent) comes with the events. A
-- ConnectSocket and a NetstringClient report one result each. The number of parts that a
-- MultiWriteBuffer has room for is a parameter; a raw relay needs 18: the 16 headers that a script
-- can insert, the "Received" line and the message.
--
-- Not modelled: libcommon's event loop, sockets and logger, the classes that are registered with
-- Lua (src/LAction.cxx), the process setup (src/system/SetupProcess.cxx), the notification of
-- systemd, and the times in a log datagram: they only call libraries.
pub mod Action
pub mod CommandLine
pub mod Common
pub mod Connection
pub mod Datagram
pub mod Exception
pub mod Instance
pub mod Libcommon
pub mod Lua
pub mod LuaMail
pub mod Main
pub mod MutableMail
pub mod Netstring
pub mod Qmqp
pub mod Relay
pub mod Resolver
pub mod Service
