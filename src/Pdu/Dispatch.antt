-- ===== src/Pdu/Dispatch.antt =====
-- parse_request and parse_response of pdu/common.py, on what a packet serialized to.
use pyomb.Prelude.Int.{pos}
use pyomb.Pdu.Error
use pyomb.Pdu.Error.{ModbusError}
use pyomb.Prelude.{false, ltb, ℕ, ◌≤◌, ◌+◌, ◌≡◌, ◌<◌, refl, subst, ◌∷◌, arith, lt→ltb}
use pyomb.Errors.{ok, catch_both, ◌>>=◌, >>=-eq-ok, catch_struct-eq-ok, catch_packet-eq-ok}
use pyomb.Struct.{Bytes, unpack}
use pyomb.Pdu.Packet
use pyomb.Pdu.Packet.{Packet}
use pyomb.Pdu.Classes
use pyomb.Pdu.Classes.{PduClass, class_of, pdu_id, is_request}
use pyomb.Pdu.Parser.{Registry, get, register, first_code, parse_request, parse_response}
use pyomb.Pdu.RoundTrip.{
  deserialize-serialize, IsRequest, IsResponse, serialize-head_request, serialize-head_response,
}
use pyomb.Pdu.Registry.{get-register}

first_code-cons : (b : ℕ) (t : Bytes) → first_code (b ∷ t) ≡ ok b
unfolding first_code unpack
first_code-cons b t = refl

pub parse_request-cons :
    (r : Registry) (b : ℕ) (t : Bytes)
    → parse_request r (b ∷ t) ≡ Classes.deserialize (get r b) (b ∷ t)
unfolding parse_request
parse_request-cons r b t = rw (first_code-cons b t)

pub parse_response-cons :
    (r : Registry) (b : ℕ) (t : Bytes)
    → b < 0x80
    → parse_response r (b ∷ t) ≡ Classes.deserialize (get r (b + 0x8000)) (b ∷ t)
unfolding parse_response
parse_response-cons r b t small = rw (first_code-cons b t, lt→ltb b 0x80 small)

-- Above the error mask the exception response is read, whatever the registry holds.
pub parse_response-cons_error :
    (r : Registry) (b : ℕ) (t : Bytes) (p : Packet)
    → 0x80 ≤ b
    → parse_response r (b ∷ t) ≡ ok p
    → Classes.deserialize PduClass.error (b ∷ t) ≡ ok p
unfolding parse_response
parse_response-cons_error r b t p large h =
    let above : ltb b 0x80 ≡ false = ground arith in
    let read = Error.deserialize (b ∷ t) >>= (λ _. ok PduClass.error) in
    let h' : (catch_both read >>= (λ c. Classes.deserialize c (b ∷ t))) ≡ ok p =
      rw (first_code-cons b t, above) at h in
    let (c, e, d) = >>=-eq-ok (catch_both read) (λ c. Classes.deserialize c (b ∷ t)) h' in
    let (q, _, eq) =
      >>=-eq-ok (Error.deserialize (b ∷ t)) (λ _. ok PduClass.error)
        (catch_struct-eq-ok read (catch_packet-eq-ok _ e)) in
    let is_error : c ≡ PduClass.error = cc in
    subst (λ k. Classes.deserialize k (b ∷ t) ≡ ok p) is_error d

pub parse_request-serialize_at :
    (r : Registry) (p : Packet) (s : Bytes)
    → IsRequest p
    → Packet.serialize p ≡ ok s
    → get r (pdu_id (class_of p)) ≡ class_of p
    → parse_request r s ≡ ok p
parse_request-serialize_at r p s i h g =
    let (t, e, _) = serialize-head_request p s i h in
    subst (λ u. Packet.serialize p ≡ ok u → parse_request r u ≡ ok p) e
      (λ k. rw (parse_request-cons, g) (deserialize-serialize p _ k)) h

pub parse_response-serialize_at :
    (r : Registry) (p : Packet) (s : Bytes)
    → IsResponse p
    → Packet.serialize p ≡ ok s
    → get r (pdu_id (class_of p)) ≡ class_of p
    → parse_response r s ≡ ok p
parse_response-serialize_at r p s i h g =
    let (c, t, e, id, small) = serialize-head_response p s i h in
    subst (λ u. Packet.serialize p ≡ ok u → parse_response r u ≡ ok p) e
      (λ k. rw (parse_response-cons _ c t small, id, g) (deserialize-serialize p _ k)) h

get-register_self : (c : PduClass) (r : Registry) → get (register c r) (pdu_id c) ≡ c
get-register_self c r = rw get-register (ground arith)

-- Once the class of a request is registered, whatever else the registry holds, the bytes that the
-- request serializes to parse back to the request.
pub parse_request-serialize :
    (r : Registry) (p : Packet) (s : Bytes)
    → IsRequest p
    → Packet.serialize p ≡ ok s
    → parse_request (register (class_of p) r) s ≡ ok p
parse_request-serialize r p s i h =
    parse_request-serialize_at (register (class_of p) r) p s i h (get-register_self (class_of p) r)

-- Once the class of a response is registered, whatever else the registry holds, the bytes that the
-- response serializes to parse back to the response.
pub parse_response-serialize :
    (r : Registry) (p : Packet) (s : Bytes)
    → IsResponse p
    → Packet.serialize p ≡ ok s
    → parse_response (register (class_of p) r) s ≡ ok p
parse_response-serialize r p s i h =
    parse_response-serialize_at (register (class_of p) r) p s i h (get-register_self (class_of p) r)

-- Under any registry, the bytes that an exception response to a function code serializes to parse
-- back to the exception response.
pub parse_response-error :
    (r : Registry) (fc exc : ℕ) (s : Bytes)
    → Error.serialize (record { fc = pos fc; exc_code = exc }) ≡ ok s
    → parse_response r s ≡ ok (Packet.error (record { fc = pos fc; exc_code = exc }))
parse_response-error r fc exc s h =
    let (t, e) = Error.head_masked fc exc s h in
    subst (λ u. Error.serialize q ≡ ok u → parse_response r u ≡ ok (Packet.error q)) e
      (λ k.
        let read = Error.parses q _ k in
        let coded = first_code-cons (fc + 0x80) t in
        let large : ltb (fc + 0x80) 0x80 ≡ false = ground arith in
        unfold parse_response Classes.deserialize in rw (coded, large, read, read))
      h
  where
    q : ModbusError
    q = record { fc = pos fc; exc_code = exc }
