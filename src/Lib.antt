-- ===== src/Lib.antt =====
-- Verification of the sprut message router.
--
-- sprut routes messages between clients over TLS and NATS. A client proves that it holds an ed25519
-- key by signing a challenge (pkg/protocol, pkg/client, pkg/router/auth.go); then it sends framed
-- messages, each of which the router checks, wraps in a protobuf Message and publishes under the
-- subject of the recipient's key (pkg/router/message.go, pkg/broker).
--
-- Which file models what:
--   Base, Bytes, Io    lists over native numbers; big-endian integers, slices and copies of a buffer
--                      (Bytes/Slices); errors as values, io.ReadFull, Write, a connection (Io/Conn);
--                      Io/Writes, Io/Reads and Io/Ensures hold the rules by which proofs compose.
--   Protocol           pkg/protocol: the constants, and a child for each message with its Encode and
--                      Decode; SignedData is BuildSignedDataTo, ChannelBinding GetChannelBinding.
--   Broker             subjectForClient of pkg/broker/subscriber.go; Connection is New and NewSubscriber,
--                      Subject/Receivers says who receives what is published for a name.
--   Router             pkg/router: Hex is isValidHexPubKey, Message is handleMessage with
--                      Publisher.Publish, Auth is authenticate over its buffer, Peer is the queue and
--                      the write loop of a client's connection and Peer/Life both with Close in any
--                      order, Server the steps by which the goroutines of handleConn share authSem
--                      and the map of peers, Serving its read loop, Tls is buildTLSConfig, Setup is
--                      Serve up to its accept loop, Accepting the accept loop over any events and
--                      Handling the whole of handleConn.
--   Identity           pkg/identity over the files of a disk.
--   Config             pkg/config: Default, Validate, resolvePaths, Load.
--   Client             pkg/client: Auth is authenticate with signChallenge, Loops the read and the
--                      write loop, Options the options with buildTLSConfig, Connect is Connect;
--                      Loops/Together is runLoop: both loops under any order of turns.
--   Appdir             internal/appdir: the paths, Init, and the files it creates.
--   Daemon             run and setupLogging of cmd/sprut/main.go, with Run of pkg/router; Main is main.
--   Programs           examples/echo-bot and examples/simple-client: their common start, EchoBot the
--                      bot's answers, SimpleClient the commands that are typed.
--   Testsprut          pkg/testsprut: Start and Close with the server behind them; Resources is
--                      GenerateCerts and startNATS, TestClient NewClient.
--   Handshake          authenticate of the client and of the server on what the other one sends.
--   Delivery           the loops of two clients and of the server put together: the way of a message
--                      from one application to another; Echo is a conversation with the echo bot,
--                      Beginning the last part of the way when anything may go wrong.
--   Examples           the theorems at concrete inputs.
--
-- Bytes are numbers below 256, strings, slices and arrays lists of them; a fixed-size array is a list
-- with its length as a hypothesis. Machine integers are native numbers with the wrap-around written
-- out. A call that may fail is a function from a state to an `Outcome`, a value or an error with the
-- state reached; an error carries the texts of fmt.Errorf. A run-time panic is the error `panic`.
-- The endless loops of goroutines are modelled a round at a time, with what the scheduler picks as an
-- argument; Client/Loops/Reading, Client/Loops/Writing and Router/Serving run loops for a number of
-- rounds and show how many suffice, Client/Loops/Together/Stopped for any order of turns. Every other
-- loop runs over a list or a fixed number of fields, `%d` over the twenty digits of 64 bits.
--
-- Parameters: ed25519.Sign and ed25519.Verify, proto.Marshal, the Publish of a NATS connection, the
-- exporter of the TLS state, the dial, certificates and their pools, the files and their results,
-- yaml.Unmarshal and proto.Unmarshal, clock readings and random bytes. A writer has a number of
-- bytes that it takes before a Write fails, and that of a closed connection takes none; a reader has
-- the bytes that will come and the error behind them.
--
-- Not modelled: the rate limiter's arithmetic, the log lines, the signals and the profiling server,
-- the capacity of the application's channels, generated protobuf code but for the message's fields.
-- The bufio.Reader of the client is the connection's own stream: that authenticate's own reader is
-- dropped with what it has read ahead is not seen, and Client/Connect/Live has nothing behind the
-- AuthResult. Router/Accepting lets a handler run
-- as a whole where it ends; what handlers do to the map of peers in between is in Router/Server.
pub mod Appdir
pub mod Daemon
pub mod Testsprut
pub mod Base
pub mod Io
pub mod Bytes
pub mod Programs
pub mod Protocol
pub mod Broker
pub mod Router
pub mod Identity
pub mod Client
pub mod Examples
pub mod Config
pub mod Delivery
pub mod Handshake
