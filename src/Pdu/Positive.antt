-- ===== src/Pdu/Positive.antt =====
-- The bytes of a serialized packet are one or more.
use pyomb.Prelude.{ℕ, ◌≡◌, ◌≤◌, ◌∷◌, subst, arith, length}
use pyomb.Errors.{ok}
use pyomb.Struct.{Bytes}
use pyomb.Pdu.Generic
use pyomb.Pdu.Error
use pyomb.Pdu.Packet
use pyomb.Pdu.Packet.{Packet}
use pyomb.Pdu.RoundTrip.{length-serialize, serialize-head_request, serialize-head_response}

cons_length : (b : ℕ) (t s : Bytes) → b ∷ t ≡ s → 1 ≤ length s
cons_length b t s e = subst (λ (u : Bytes). 1 ≤ length u) e (omega arith)

pub serialize-positive : (p : Packet) (s : Bytes) → Packet.serialize p ≡ ok s → 1 ≤ length s
unfolding Packet.len Generic.len Error.len
serialize-positive (Packet.generic p) s h = omega (arith, length-serialize (Packet.generic p) s h)
serialize-positive (Packet.error p) s h = omega (arith, length-serialize (Packet.error p) s h)
serialize-positive (Packet.request_fc1 p) s h =
    let (t, e, _) = serialize-head_request (Packet.request_fc1 p) s tt h in cons_length _ t s e
serialize-positive (Packet.response_fc1 p) s h =
    let (x, t, e, _, _) = serialize-head_response (Packet.response_fc1 p) s tt h in
    cons_length x t s e
serialize-positive (Packet.request_fc2 p) s h =
    let (t, e, _) = serialize-head_request (Packet.request_fc2 p) s tt h in cons_length _ t s e
serialize-positive (Packet.response_fc2 p) s h =
    let (x, t, e, _, _) = serialize-head_response (Packet.response_fc2 p) s tt h in
    cons_length x t s e
serialize-positive (Packet.request_fc5 p) s h =
    let (t, e, _) = serialize-head_request (Packet.request_fc5 p) s tt h in cons_length _ t s e
serialize-positive (Packet.response_fc5 p) s h =
    let (x, t, e, _, _) = serialize-head_response (Packet.response_fc5 p) s tt h in
    cons_length x t s e
serialize-positive (Packet.request_fc15 p) s h =
    let (t, e, _) = serialize-head_request (Packet.request_fc15 p) s tt h in cons_length _ t s e
serialize-positive (Packet.response_fc15 p) s h =
    let (x, t, e, _, _) = serialize-head_response (Packet.response_fc15 p) s tt h in
    cons_length x t s e
serialize-positive (Packet.request_fc7 p) s h =
    let (t, e, _) = serialize-head_request (Packet.request_fc7 p) s tt h in cons_length _ t s e
serialize-positive (Packet.response_fc7 p) s h =
    let (x, t, e, _, _) = serialize-head_response (Packet.response_fc7 p) s tt h in
    cons_length x t s e
serialize-positive (Packet.request_fc8 p) s h =
    let (t, e, _) = serialize-head_request (Packet.request_fc8 p) s tt h in cons_length _ t s e
serialize-positive (Packet.response_fc8 p) s h =
    let (x, t, e, _, _) = serialize-head_response (Packet.response_fc8 p) s tt h in
    cons_length x t s e
serialize-positive (Packet.request_fc43 p) s h =
    let (t, e, _) = serialize-head_request (Packet.request_fc43 p) s tt h in cons_length _ t s e
serialize-positive (Packet.response_fc43 p) s h =
    let (x, t, e, _, _) = serialize-head_response (Packet.response_fc43 p) s tt h in
    cons_length x t s e
serialize-positive (Packet.request_fc3 p) s h =
    let (t, e, _) = serialize-head_request (Packet.request_fc3 p) s tt h in cons_length _ t s e
serialize-positive (Packet.response_fc3 p) s h =
    let (x, t, e, _, _) = serialize-head_response (Packet.response_fc3 p) s tt h in
    cons_length x t s e
serialize-positive (Packet.request_fc4 p) s h =
    let (t, e, _) = serialize-head_request (Packet.request_fc4 p) s tt h in cons_length _ t s e
serialize-positive (Packet.response_fc4 p) s h =
    let (x, t, e, _, _) = serialize-head_response (Packet.response_fc4 p) s tt h in
    cons_length x t s e
serialize-positive (Packet.request_fc6 p) s h =
    let (t, e, _) = serialize-head_request (Packet.request_fc6 p) s tt h in cons_length _ t s e
serialize-positive (Packet.response_fc6 p) s h =
    let (x, t, e, _, _) = serialize-head_response (Packet.response_fc6 p) s tt h in
    cons_length x t s e
serialize-positive (Packet.request_fc16 p) s h =
    let (t, e, _) = serialize-head_request (Packet.request_fc16 p) s tt h in cons_length _ t s e
serialize-positive (Packet.response_fc16 p) s h =
    let (x, t, e, _, _) = serialize-head_response (Packet.response_fc16 p) s tt h in
    cons_length x t s e
serialize-positive (Packet.request_fc22 p) s h =
    let (t, e, _) = serialize-head_request (Packet.request_fc22 p) s tt h in cons_length _ t s e
serialize-positive (Packet.response_fc22 p) s h =
    let (x, t, e, _, _) = serialize-head_response (Packet.response_fc22 p) s tt h in
    cons_length x t s e
serialize-positive (Packet.request_fc23 p) s h =
    let (t, e, _) = serialize-head_request (Packet.request_fc23 p) s tt h in cons_length _ t s e
serialize-positive (Packet.response_fc23 p) s h =
    let (x, t, e, _, _) = serialize-head_response (Packet.response_fc23 p) s tt h in
    cons_length x t s e
