-- ===== src/Hello/RsocketGreeter.antt =====
-- transport_hello_world/rsocket: the greeter's server and client. What the server logs of a request
-- is left out.
use rpc_transport_tests.Prelude.{Option, none, some, List, [], ◌∷◌, ◌++◌, codes}
use rpc_transport_tests.Memory.{Bytes}

-- rsocket::Payload
pub record Payload : Type 0 where
  pub data_text : Bytes
  pub metadata : Bytes

-- `HelloRequestResponseResponder::handleRequestResponse`: the payload of its `onSuccess`.
unfoldable pub handle_request_response : Payload → Payload
handle_request_response request = record {
  data_text = codes "Hello " ++ (request.data_text ++ codes "!");
  metadata = codes "metadata";
}

-- `main` of the client, for what `requestResponse` brings, if anything: the lines that it writes.
unfoldable pub rsocket_client_main : (Payload → Option Payload) → List Bytes
rsocket_client_main request_response =
    elim (request_response (record { data_text = codes "Jane"; metadata = [] })) [
      | none ↦ []
      | some p ↦ (codes "Received >> " ++ p.data_text) ∷ []
    ]
