-- ===== src/Calculator/Server.antt =====
-- `main` of transport_hello_world/capnproto/calculator-server.c++. Which port Cap'n Proto gets for an
-- address is a parameter.
use rpc_transport_tests.Prelude.{ℕ, ◌==◌, if◌then◌else◌, List, [], ◌∷◌, ◌++◌, codes}
use rpc_transport_tests.Prelude.Decimal.{to_string}
use rpc_transport_tests.Memory.{Bytes}

-- A program that ends, or one that serves for ever, with the lines that it wrote.
pub data ServerMain : Type 0 where
  ended : ℕ → List Bytes → ServerMain
  serving : List Bytes → ServerMain

abbrev pub server_usage : Bytes → List Bytes
server_usage program =
    (codes "usage: " ++ (program ++ codes " ADDRESS[:PORT]"))
    ∷ codes "Runs the server bound to the given address/port."
    ∷ codes "ADDRESS may be '*' to bind to all local addresses."
    ∷ codes ":PORT may be omitted to choose a port automatically."
    ∷ []

unfoldable pub calculator_server_main : (Bytes → ℕ) → Bytes → List Bytes → ServerMain
calculator_server_main port_of program (address ∷ []) =
    let port = port_of address in
    if port == 0
    then serving (codes "Listening on Unix socket..." ∷ [])
    else serving ((codes "Listening on port " ++ (to_string port ++ codes "...")) ∷ [])
calculator_server_main port_of program arguments = ended 1 (server_usage program)
