-- ===== src/Lib.antt =====
-- The RPC transport tests: a client and a server that measure how fast a transport carries blocks.
--
-- The program. src/rt_client_server/rt_client.cc builds requests (write, read or echo), sends them
-- through a transport, and checks the reply. src/rt_client_server/rt_server.cc answers them in a
-- receive function that every transport calls. src/rt_client_server/transport.hpp is the interface
-- between them, and src/rt_client_server/transports has its implementations.
--
-- The files.
--   Prelude: names of the libraries, tests, integers, lists, maps, texts and decimals.
--   Memory: a process's objects at addresses, and commands that end with a value, an exception, an
--     abort or undefined behaviour. Memory/Yields: total correctness of commands.
--   Machine: the random bytes, the clock, and whether the log lines of level STRING_MEM
--     (log_levels.hpp) are on, which are parameters.
--   Transport: transport.hpp and transport.cc (DataBuf, Msg, MsgDataContainer, Server::_rcvFn).
--     Transport/Views: what a message shows in a memory. Transport/Contracts: the interface as a
--     service and the clients that reach it, which the programs and the transports meet at.
--     Transport/Hex: bytesToHex, which the log lines use. Transport/LogLines: those of the string
--     that a container got last.
--   Proto: rt.proto. Payload: PayloadCreator::addToMsg of payload_creator.hpp, with Payload/Added for
--     what it adds.
--   Client: rt_client.cc. Requests has the creators, Validator the reply validators, Run the
--     operations with getRemoteProcessTimeUs, Main the choices and the loop of main, Connect the
--     transports' clients that main makes and the program with its command line, Report the
--     statistics and the lines that main writes.
--   Server: rt_server.cc. Replies has the creators, Server itself ServerRcvFn, Limits what it does
--     at sizes out of range, Main its main, Connect the transports' servers and the program.
--   Transports: one file per directory of src/rt_client_server/transports; Streams has the loops
--     that they share, Restores what their releases leave, Handlers what that is for the servers,
--     Address the addresses, Dialing what gRPC gives a client. In each
--     directory Connect has the constructors, and Delivery joins client and server.
--     Grpc/Sessions: calls that run in several threads at a time; its children are about who owns
--     which string, about single turns, about calls among others, and about what they leave.
--     Capnproto/Sessions: the event loop with a ReqSvcImpl for each of several requests; its
--     children are about single turns, about each object by itself, and about a reply's end.
--   RoundTrip: the client of rt_client.cc against the server of rt_server.cc over a transport;
--     Programs, Startup and Reports are about the programs with their command lines.
--   Logging: what the log lines change. Modules named Unlogged compare an operation with and
--     without them.
--   Calculator: src/transport_hello_world/capnproto/calculator-server.c++ and calculator-client.c++
--     (Client); Server has the main of the server. Substitution is about defined functions, Totality
--     about well-formed expressions.
--   Streaming: src/transport_hello_world/capnproto/streaming, with Echo for what comes back.
--   Greeter: src/transport_hello_world/grpc/greeter_async_server.cc, a state machine of calls.
--     Stages and Liveness follow one call through its life.
--   Hello: the other greeters of src/transport_hello_world. GreeterServer, GreeterClient (with
--     Target for its argument), AsyncClient and AsyncClient2 are the files of those names in grpc;
--     FlatbuffersServer and FlatbuffersClient are flatbuffers/server.cpp and client.cpp;
--     RsocketGreeter is rsocket, with the threads of its server in RsocketServer and their end in
--     RsocketServer/Ending; Greetings joins clients and servers.
--   Tests: a small codec, peers, and the theorems at concrete inputs.
--
-- The model. A command maps a memory to its end. A string object stands for its characters too, so
-- a DataBuf views a string by the string's address; addresses are never used again. An `int`
-- expression that overflows is undefined behaviour, and sizes are integers with that test written
-- out. A log line is what it reads in memory; what it writes is left out. Loops are recursion on
-- the rounds or the items that are left. Fuel is given to a Cap'n Proto stream, one more than its
-- buffers, to the chains of the streaming example, one more than the strings, and to the decimals,
-- one more than the number: each step takes one of these away.
--
-- Parameters. Protocol Buffers is a codec that gives a serialized message back if the message fits
-- the format. libsodium is a source of blocks of the length that is asked for. The runtimes of
-- gRPC, FlatBuffers, Cap'n Proto and RSocket are what a client reads for what it wrote, in the
-- memory it sends from; that they carry the items in order is a hypothesis where it is used. The
-- `double` of the calculator, and that of rt_client's statistics with chrono's conversions and
-- Boost's accumulators, is any type with its operations. The threads of gRPC, the completion queues
-- of the greeters and the event loop of Cap'n Proto are what may happen next, as step relations.
-- Whether a library makes a server, a channel, a stub or a client for an address is a function of
-- the address, and so is what a peer does with a call.
--
-- Not modelled: what log lines write, and those that read no memory; what the RSocket
-- transport writes to the console; signal handling; the scripts;
-- how the libraries' servers are shut down; and what becomes of the asynchronous greeter where gRPC
-- has not started it, which gRPC does not say.
pub mod Prelude
pub mod Memory
pub mod Machine
pub mod Transport
pub mod Proto
pub mod Payload
pub mod Client
pub mod Server
pub mod Transports
pub mod RoundTrip
pub mod Calculator
pub mod Greeter
pub mod Hello
pub mod Logging
pub mod Streaming
pub mod Tests
