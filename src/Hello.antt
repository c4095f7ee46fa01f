-- ===== src/Hello.antt =====
-- transport_hello_world: the greeters of grpc (those of the synchronous server and of the clients),
-- flatbuffers and rsocket. The runtimes are parameters: what a stub gives for a request, and
-- whether a server is started.
pub mod GreeterServer
pub mod GreeterClient
pub mod AsyncClient
pub mod AsyncClient2
pub mod FlatbuffersServer
pub mod FlatbuffersClient
pub mod RsocketGreeter
pub mod RsocketServer
pub mod Greetings
pub mod Target
