-- ===== src/Pdu/RoundTrip.antt =====
-- serialize, deserialize and __len__ of the PDU classes together.
use pyomb.Prelude.{ℕ, ◌+◌, ◌≡◌, ◌<◌, ◌∷◌, arith, length, All}
use pyomb.Errors.{ok}
use pyomb.Struct.{Bytes, IsByte}
use pyomb.Pdu.Generic
use pyomb.Pdu.Error
use pyomb.Pdu.Packet
use pyomb.Pdu.Packet.{Packet}
use pyomb.Pdu.Classes
use pyomb.Pdu.Classes.{PduClass, class_of, pdu_id, is_request}
use pyomb.Pdu.Bits.RequestFc1
use pyomb.Pdu.Bits.ResponseFc1
use pyomb.Pdu.Bits.RequestFc2
use pyomb.Pdu.Bits.ResponseFc2
use pyomb.Pdu.Bits.RequestFc5
use pyomb.Pdu.Bits.ResponseFc5
use pyomb.Pdu.Bits.RequestFc15
use pyomb.Pdu.Bits.ResponseFc15
use pyomb.Pdu.Diagnostics.RequestFc7
use pyomb.Pdu.Diagnostics.ResponseFc7
use pyomb.Pdu.Diagnostics.RequestFc8
use pyomb.Pdu.Diagnostics.ResponseFc8
use pyomb.Pdu.Encapsulated.RequestFc43
use pyomb.Pdu.Encapsulated.ResponseFc43
use pyomb.Pdu.Registers.RequestFc3
use pyomb.Pdu.Registers.ResponseFc3
use pyomb.Pdu.Registers.RequestFc4
use pyomb.Pdu.Registers.ResponseFc4
use pyomb.Pdu.Registers.RequestFc6
use pyomb.Pdu.Registers.ResponseFc6
use pyomb.Pdu.Registers.RequestFc16
use pyomb.Pdu.Registers.ResponseFc16
use pyomb.Pdu.Registers.RequestFc22
use pyomb.Pdu.Registers.ResponseFc22
use pyomb.Pdu.Registers.RequestFc23
use pyomb.Pdu.Registers.ResponseFc23

-- What a packet of any class serializes to, its own class deserializes to the packet.
pub deserialize-serialize :
    (p : Packet) (s : Bytes) → Packet.serialize p ≡ ok s → Classes.deserialize (class_of p) s ≡ ok p
unfolding Packet.serialize Classes.deserialize class_of
deserialize-serialize (Packet.generic p) s h = rw (Generic.parses p s h)
deserialize-serialize (Packet.error p) s h = rw (Error.parses p s h)
deserialize-serialize (Packet.request_fc1 p) s h = rw (RequestFc1.laws.parses p s h)
deserialize-serialize (Packet.response_fc1 p) s h = rw (ResponseFc1.laws.parses p s h)
deserialize-serialize (Packet.request_fc2 p) s h = rw (RequestFc2.laws.parses p s h)
deserialize-serialize (Packet.response_fc2 p) s h = rw (ResponseFc2.laws.parses p s h)
deserialize-serialize (Packet.request_fc5 p) s h = rw (RequestFc5.laws.parses p s h)
deserialize-serialize (Packet.response_fc5 p) s h = rw (ResponseFc5.laws.parses p s h)
deserialize-serialize (Packet.request_fc15 p) s h = rw (RequestFc15.laws.parses p s h)
deserialize-serialize (Packet.response_fc15 p) s h = rw (ResponseFc15.laws.parses p s h)
deserialize-serialize (Packet.request_fc7 p) s h = rw (RequestFc7.laws.parses p s h)
deserialize-serialize (Packet.response_fc7 p) s h = rw (ResponseFc7.laws.parses p s h)
deserialize-serialize (Packet.request_fc8 p) s h = rw (RequestFc8.laws.parses p s h)
deserialize-serialize (Packet.response_fc8 p) s h = rw (ResponseFc8.laws.parses p s h)
deserialize-serialize (Packet.request_fc43 p) s h = rw (RequestFc43.laws.parses p s h)
deserialize-serialize (Packet.response_fc43 p) s h = rw (ResponseFc43.laws.parses p s h)
deserialize-serialize (Packet.request_fc3 p) s h = rw (RequestFc3.laws.parses p s h)
deserialize-serialize (Packet.response_fc3 p) s h = rw (ResponseFc3.laws.parses p s h)
deserialize-serialize (Packet.request_fc4 p) s h = rw (RequestFc4.laws.parses p s h)
deserialize-serialize (Packet.response_fc4 p) s h = rw (ResponseFc4.laws.parses p s h)
deserialize-serialize (Packet.request_fc6 p) s h = rw (RequestFc6.laws.parses p s h)
deserialize-serialize (Packet.response_fc6 p) s h = rw (ResponseFc6.laws.parses p s h)
deserialize-serialize (Packet.request_fc16 p) s h = rw (RequestFc16.laws.parses p s h)
deserialize-serialize (Packet.response_fc16 p) s h = rw (ResponseFc16.laws.parses p s h)
deserialize-serialize (Packet.request_fc22 p) s h = rw (RequestFc22.laws.parses p s h)
deserialize-serialize (Packet.response_fc22 p) s h = rw (ResponseFc22.laws.parses p s h)
deserialize-serialize (Packet.request_fc23 p) s h = rw (RequestFc23.laws.parses p s h)
deserialize-serialize (Packet.response_fc23 p) s h = rw (ResponseFc23.laws.parses p s h)

-- What a packet of any class serializes to has the length that `len` says.
pub length-serialize :
    (p : Packet) (s : Bytes) → Packet.serialize p ≡ ok s → length s ≡ Packet.len p
unfolding Packet.serialize Packet.len
length-serialize (Packet.generic p) s h = Generic.sized p s h
length-serialize (Packet.error p) s h = Error.sized p s h
length-serialize (Packet.request_fc1 p) s h = RequestFc1.laws.sized p s h
length-serialize (Packet.response_fc1 p) s h = ResponseFc1.laws.sized p s h
length-serialize (Packet.request_fc2 p) s h = RequestFc2.laws.sized p s h
length-serialize (Packet.response_fc2 p) s h = ResponseFc2.laws.sized p s h
length-serialize (Packet.request_fc5 p) s h = RequestFc5.laws.sized p s h
length-serialize (Packet.response_fc5 p) s h = ResponseFc5.laws.sized p s h
length-serialize (Packet.request_fc15 p) s h = RequestFc15.laws.sized p s h
length-serialize (Packet.response_fc15 p) s h = ResponseFc15.laws.sized p s h
length-serialize (Packet.request_fc7 p) s h = RequestFc7.laws.sized p s h
length-serialize (Packet.response_fc7 p) s h = ResponseFc7.laws.sized p s h
length-serialize (Packet.request_fc8 p) s h = RequestFc8.laws.sized p s h
length-serialize (Packet.response_fc8 p) s h = ResponseFc8.laws.sized p s h
length-serialize (Packet.request_fc43 p) s h = RequestFc43.laws.sized p s h
length-serialize (Packet.response_fc43 p) s h = ResponseFc43.laws.sized p s h
length-serialize (Packet.request_fc3 p) s h = RequestFc3.laws.sized p s h
length-serialize (Packet.response_fc3 p) s h = ResponseFc3.laws.sized p s h
length-serialize (Packet.request_fc4 p) s h = RequestFc4.laws.sized p s h
length-serialize (Packet.response_fc4 p) s h = ResponseFc4.laws.sized p s h
length-serialize (Packet.request_fc6 p) s h = RequestFc6.laws.sized p s h
length-serialize (Packet.response_fc6 p) s h = ResponseFc6.laws.sized p s h
length-serialize (Packet.request_fc16 p) s h = RequestFc16.laws.sized p s h
length-serialize (Packet.response_fc16 p) s h = ResponseFc16.laws.sized p s h
length-serialize (Packet.request_fc22 p) s h = RequestFc22.laws.sized p s h
length-serialize (Packet.response_fc22 p) s h = ResponseFc22.laws.sized p s h
length-serialize (Packet.request_fc23 p) s h = RequestFc23.laws.sized p s h
length-serialize (Packet.response_fc23 p) s h = ResponseFc23.laws.sized p s h

pub serialize-IsByte : (p : Packet) (s : Bytes) → Packet.serialize p ≡ ok s → All IsByte s
unfolding Packet.serialize
serialize-IsByte (Packet.generic p) s h = Generic.bytes p s h
serialize-IsByte (Packet.error p) s h = Error.bytes p s h
serialize-IsByte (Packet.request_fc1 p) s h = RequestFc1.laws.bytes p s h
serialize-IsByte (Packet.response_fc1 p) s h = ResponseFc1.laws.bytes p s h
serialize-IsByte (Packet.request_fc2 p) s h = RequestFc2.laws.bytes p s h
serialize-IsByte (Packet.response_fc2 p) s h = ResponseFc2.laws.bytes p s h
serialize-IsByte (Packet.request_fc5 p) s h = RequestFc5.laws.bytes p s h
serialize-IsByte (Packet.response_fc5 p) s h = ResponseFc5.laws.bytes p s h
serialize-IsByte (Packet.request_fc15 p) s h = RequestFc15.laws.bytes p s h
serialize-IsByte (Packet.response_fc15 p) s h = ResponseFc15.laws.bytes p s h
serialize-IsByte (Packet.request_fc7 p) s h = RequestFc7.laws.bytes p s h
serialize-IsByte (Packet.response_fc7 p) s h = ResponseFc7.laws.bytes p s h
serialize-IsByte (Packet.request_fc8 p) s h = RequestFc8.laws.bytes p s h
serialize-IsByte (Packet.response_fc8 p) s h = ResponseFc8.laws.bytes p s h
serialize-IsByte (Packet.request_fc43 p) s h = RequestFc43.laws.bytes p s h
serialize-IsByte (Packet.response_fc43 p) s h = ResponseFc43.laws.bytes p s h
serialize-IsByte (Packet.request_fc3 p) s h = RequestFc3.laws.bytes p s h
serialize-IsByte (Packet.response_fc3 p) s h = ResponseFc3.laws.bytes p s h
serialize-IsByte (Packet.request_fc4 p) s h = RequestFc4.laws.bytes p s h
serialize-IsByte (Packet.response_fc4 p) s h = ResponseFc4.laws.bytes p s h
serialize-IsByte (Packet.request_fc6 p) s h = RequestFc6.laws.bytes p s h
serialize-IsByte (Packet.response_fc6 p) s h = ResponseFc6.laws.bytes p s h
serialize-IsByte (Packet.request_fc16 p) s h = RequestFc16.laws.bytes p s h
serialize-IsByte (Packet.response_fc16 p) s h = ResponseFc16.laws.bytes p s h
serialize-IsByte (Packet.request_fc22 p) s h = RequestFc22.laws.bytes p s h
serialize-IsByte (Packet.response_fc22 p) s h = ResponseFc22.laws.bytes p s h
serialize-IsByte (Packet.request_fc23 p) s h = RequestFc23.laws.bytes p s h
serialize-IsByte (Packet.response_fc23 p) s h = ResponseFc23.laws.bytes p s h

-- The requests and the responses that a function code names.
abbrev pub IsRequest : Packet → Type 0
IsRequest (Packet.request_fc1 p) = Unit
IsRequest (Packet.request_fc2 p) = Unit
IsRequest (Packet.request_fc5 p) = Unit
IsRequest (Packet.request_fc15 p) = Unit
IsRequest (Packet.request_fc7 p) = Unit
IsRequest (Packet.request_fc8 p) = Unit
IsRequest (Packet.request_fc43 p) = Unit
IsRequest (Packet.request_fc3 p) = Unit
IsRequest (Packet.request_fc4 p) = Unit
IsRequest (Packet.request_fc6 p) = Unit
IsRequest (Packet.request_fc16 p) = Unit
IsRequest (Packet.request_fc22 p) = Unit
IsRequest (Packet.request_fc23 p) = Unit
IsRequest _ = ⊥

abbrev pub IsResponse : Packet → Type 0
IsResponse (Packet.response_fc1 p) = Unit
IsResponse (Packet.response_fc2 p) = Unit
IsResponse (Packet.response_fc5 p) = Unit
IsResponse (Packet.response_fc15 p) = Unit
IsResponse (Packet.response_fc7 p) = Unit
IsResponse (Packet.response_fc8 p) = Unit
IsResponse (Packet.response_fc43 p) = Unit
IsResponse (Packet.response_fc3 p) = Unit
IsResponse (Packet.response_fc4 p) = Unit
IsResponse (Packet.response_fc6 p) = Unit
IsResponse (Packet.response_fc16 p) = Unit
IsResponse (Packet.response_fc22 p) = Unit
IsResponse (Packet.response_fc23 p) = Unit
IsResponse _ = ⊥

-- The first byte of a request is its PDU_ID; of a response, its PDU_ID less 0x8000.
pub serialize-head_request :
    (p : Packet) (s : Bytes)
    → IsRequest p
    → Packet.serialize p ≡ ok s
    → (t : Bytes) × (pdu_id (class_of p) ∷ t ≡ s) × (pdu_id (class_of p) < 0x80)
unfolding Packet.serialize class_of pdu_id
serialize-head_request (Packet.generic p) s i h = absurd i
serialize-head_request (Packet.error p) s i h = absurd i
serialize-head_request (Packet.request_fc1 p) s i h =
    let (t, e) = RequestFc1.laws.begins p s h in (t, e, omega arith)
serialize-head_request (Packet.response_fc1 p) s i h = absurd i
serialize-head_request (Packet.request_fc2 p) s i h =
    let (t, e) = RequestFc2.laws.begins p s h in (t, e, omega arith)
serialize-head_request (Packet.response_fc2 p) s i h = absurd i
serialize-head_request (Packet.request_fc5 p) s i h =
    let (t, e) = RequestFc5.laws.begins p s h in (t, e, omega arith)
serialize-head_request (Packet.response_fc5 p) s i h = absurd i
serialize-head_request (Packet.request_fc15 p) s i h =
    let (t, e) = RequestFc15.laws.begins p s h in (t, e, omega arith)
serialize-head_request (Packet.response_fc15 p) s i h = absurd i
serialize-head_request (Packet.request_fc7 p) s i h =
    let (t, e) = RequestFc7.laws.begins p s h in (t, e, omega arith)
serialize-head_request (Packet.response_fc7 p) s i h = absurd i
serialize-head_request (Packet.request_fc8 p) s i h =
    let (t, e) = RequestFc8.laws.begins p s h in (t, e, omega arith)
serialize-head_request (Packet.response_fc8 p) s i h = absurd i
serialize-head_request (Packet.request_fc43 p) s i h =
    let (t, e) = RequestFc43.laws.begins p s h in (t, e, omega arith)
serialize-head_request (Packet.response_fc43 p) s i h = absurd i
serialize-head_request (Packet.request_fc3 p) s i h =
    let (t, e) = RequestFc3.laws.begins p s h in (t, e, omega arith)
serialize-head_request (Packet.response_fc3 p) s i h = absurd i
serialize-head_request (Packet.request_fc4 p) s i h =
    let (t, e) = RequestFc4.laws.begins p s h in (t, e, omega arith)
serialize-head_request (Packet.response_fc4 p) s i h = absurd i
serialize-head_request (Packet.request_fc6 p) s i h =
    let (t, e) = RequestFc6.laws.begins p s h in (t, e, omega arith)
serialize-head_request (Packet.response_fc6 p) s i h = absurd i
serialize-head_request (Packet.request_fc16 p) s i h =
    let (t, e) = RequestFc16.laws.begins p s h in (t, e, omega arith)
serialize-head_request (Packet.response_fc16 p) s i h = absurd i
serialize-head_request (Packet.request_fc22 p) s i h =
    let (t, e) = RequestFc22.laws.begins p s h in (t, e, omega arith)
serialize-head_request (Packet.response_fc22 p) s i h = absurd i
serialize-head_request (Packet.request_fc23 p) s i h =
    let (t, e) = RequestFc23.laws.begins p s h in (t, e, omega arith)
serialize-head_request (Packet.response_fc23 p) s i h = absurd i

pub serialize-head_response :
    (p : Packet) (s : Bytes)
    → IsResponse p
    → Packet.serialize p ≡ ok s
    → (c : ℕ) × (t : Bytes) × (c ∷ t ≡ s) × (c + 0x8000 ≡ pdu_id (class_of p)) × (c < 0x80)
unfolding Packet.serialize class_of pdu_id
serialize-head_response (Packet.generic p) s i h = absurd i
serialize-head_response (Packet.error p) s i h = absurd i
serialize-head_response (Packet.request_fc1 p) s i h = absurd i
serialize-head_response (Packet.response_fc1 p) s i h =
    let (t, e) = ResponseFc1.laws.begins p s h in (1, t, e, omega arith, omega arith)
serialize-head_response (Packet.request_fc2 p) s i h = absurd i
serialize-head_response (Packet.response_fc2 p) s i h =
    let (t, e) = ResponseFc2.laws.begins p s h in (2, t, e, omega arith, omega arith)
serialize-head_response (Packet.request_fc5 p) s i h = absurd i
serialize-head_response (Packet.response_fc5 p) s i h =
    let (t, e) = ResponseFc5.laws.begins p s h in (5, t, e, omega arith, omega arith)
serialize-head_response (Packet.request_fc15 p) s i h = absurd i
serialize-head_response (Packet.response_fc15 p) s i h =
    let (t, e) = ResponseFc15.laws.begins p s h in (15, t, e, omega arith, omega arith)
serialize-head_response (Packet.request_fc7 p) s i h = absurd i
serialize-head_response (Packet.response_fc7 p) s i h =
    let (t, e) = ResponseFc7.laws.begins p s h in (7, t, e, omega arith, omega arith)
serialize-head_response (Packet.request_fc8 p) s i h = absurd i
serialize-head_response (Packet.response_fc8 p) s i h =
    let (t, e) = ResponseFc8.laws.begins p s h in (8, t, e, omega arith, omega arith)
serialize-head_response (Packet.request_fc43 p) s i h = absurd i
serialize-head_response (Packet.response_fc43 p) s i h =
    let (t, e) = ResponseFc43.laws.begins p s h in (43, t, e, omega arith, omega arith)
serialize-head_response (Packet.request_fc3 p) s i h = absurd i
serialize-head_response (Packet.response_fc3 p) s i h =
    let (t, e) = ResponseFc3.laws.begins p s h in (3, t, e, omega arith, omega arith)
serialize-head_response (Packet.request_fc4 p) s i h = absurd i
serialize-head_response (Packet.response_fc4 p) s i h =
    let (t, e) = ResponseFc4.laws.begins p s h in (4, t, e, omega arith, omega arith)
serialize-head_response (Packet.request_fc6 p) s i h = absurd i
serialize-head_response (Packet.response_fc6 p) s i h =
    let (t, e) = ResponseFc6.laws.begins p s h in (6, t, e, omega arith, omega arith)
serialize-head_response (Packet.request_fc16 p) s i h = absurd i
serialize-head_response (Packet.response_fc16 p) s i h =
    let (t, e) = ResponseFc16.laws.begins p s h in (16, t, e, omega arith, omega arith)
serialize-head_response (Packet.request_fc22 p) s i h = absurd i
serialize-head_response (Packet.response_fc22 p) s i h =
    let (t, e) = ResponseFc22.laws.begins p s h in (22, t, e, omega arith, omega arith)
serialize-head_response (Packet.request_fc23 p) s i h = absurd i
serialize-head_response (Packet.response_fc23 p) s i h =
    let (t, e) = ResponseFc23.laws.begins p s h in (23, t, e, omega arith, omega arith)
