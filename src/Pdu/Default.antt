-- ===== src/Pdu/Default.antt =====
-- The registry that the package builds by importing its four modules.
use pyomb.Prelude.{◌≡◌, refl}
use pyomb.Errors.{ok}
use pyomb.Struct.{Bytes}
use pyomb.Pdu.Packet
use pyomb.Pdu.Packet.{Packet}
use pyomb.Pdu.Classes.{class_of, pdu_id}
use pyomb.Pdu.Parser.{get, default_registry, parse_request, parse_response}
use pyomb.Pdu.RoundTrip.{IsRequest, IsResponse}
use pyomb.Pdu.Dispatch.{parse_request-serialize_at, parse_response-serialize_at}

-- The registry answers for every request and every response class.
pub get-default_request :
    (p : Packet) → IsRequest p → get default_registry (pdu_id (class_of p)) ≡ class_of p
unfolding default_registry get class_of
get-default_request (Packet.generic p) i = absurd i
get-default_request (Packet.error p) i = absurd i
get-default_request (Packet.request_fc1 p) i = refl
get-default_request (Packet.response_fc1 p) i = absurd i
get-default_request (Packet.request_fc2 p) i = refl
get-default_request (Packet.response_fc2 p) i = absurd i
get-default_request (Packet.request_fc5 p) i = refl
get-default_request (Packet.response_fc5 p) i = absurd i
get-default_request (Packet.request_fc15 p) i = refl
get-default_request (Packet.response_fc15 p) i = absurd i
get-default_request (Packet.request_fc7 p) i = refl
get-default_request (Packet.response_fc7 p) i = absurd i
get-default_request (Packet.request_fc8 p) i = refl
get-default_request (Packet.response_fc8 p) i = absurd i
get-default_request (Packet.request_fc43 p) i = refl
get-default_request (Packet.response_fc43 p) i = absurd i
get-default_request (Packet.request_fc3 p) i = refl
get-default_request (Packet.response_fc3 p) i = absurd i
get-default_request (Packet.request_fc4 p) i = refl
get-default_request (Packet.response_fc4 p) i = absurd i
get-default_request (Packet.request_fc6 p) i = refl
get-default_request (Packet.response_fc6 p) i = absurd i
get-default_request (Packet.request_fc16 p) i = refl
get-default_request (Packet.response_fc16 p) i = absurd i
get-default_request (Packet.request_fc22 p) i = refl
get-default_request (Packet.response_fc22 p) i = absurd i
get-default_request (Packet.request_fc23 p) i = refl
get-default_request (Packet.response_fc23 p) i = absurd i

pub get-default_response :
    (p : Packet) → IsResponse p → get default_registry (pdu_id (class_of p)) ≡ class_of p
unfolding default_registry get class_of
get-default_response (Packet.generic p) i = absurd i
get-default_response (Packet.error p) i = absurd i
get-default_response (Packet.request_fc1 p) i = absurd i
get-default_response (Packet.response_fc1 p) i = refl
get-default_response (Packet.request_fc2 p) i = absurd i
get-default_response (Packet.response_fc2 p) i = refl
get-default_response (Packet.request_fc5 p) i = absurd i
get-default_response (Packet.response_fc5 p) i = refl
get-default_response (Packet.request_fc15 p) i = absurd i
get-default_response (Packet.response_fc15 p) i = refl
get-default_response (Packet.request_fc7 p) i = absurd i
get-default_response (Packet.response_fc7 p) i = refl
get-default_response (Packet.request_fc8 p) i = absurd i
get-default_response (Packet.response_fc8 p) i = refl
get-default_response (Packet.request_fc43 p) i = absurd i
get-default_response (Packet.response_fc43 p) i = refl
get-default_response (Packet.request_fc3 p) i = absurd i
get-default_response (Packet.response_fc3 p) i = refl
get-default_response (Packet.request_fc4 p) i = absurd i
get-default_response (Packet.response_fc4 p) i = refl
get-default_response (Packet.request_fc6 p) i = absurd i
get-default_response (Packet.response_fc6 p) i = refl
get-default_response (Packet.request_fc16 p) i = absurd i
get-default_response (Packet.response_fc16 p) i = refl
get-default_response (Packet.request_fc22 p) i = absurd i
get-default_response (Packet.response_fc22 p) i = refl
get-default_response (Packet.request_fc23 p) i = absurd i
get-default_response (Packet.response_fc23 p) i = refl

-- Under the registry that importing the package builds, the bytes that a request serializes to
-- parse back to the request.
pub parse_request-serialize_default :
    (p : Packet) (s : Bytes)
    → IsRequest p
    → Packet.serialize p ≡ ok s
    → parse_request default_registry s ≡ ok p
parse_request-serialize_default p s i h =
    parse_request-serialize_at default_registry p s i h (get-default_request p i)

-- Under the registry that importing the package builds, the bytes that a response serializes to
-- parse back to the response.
pub parse_response-serialize_default :
    (p : Packet) (s : Bytes)
    → IsResponse p
    → Packet.serialize p ≡ ok s
    → parse_response default_registry s ≡ ok p
parse_response-serialize_default p s i h =
    parse_response-serialize_at default_registry p s i h (get-default_response p i)
