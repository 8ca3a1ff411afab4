-- ===== src/Pdu/Lossless.antt =====
-- parse_request and parse_response of pdu/common.py, on any byte string.
mod Requests
pub mod Responses
use pyomb.Prelude.{
  Bool-cases, ltb, ltb→lt, false, ℕ, zero, suc, ◌+◌, ◌-◌, ◌*◌, ◌/◌, ◌%◌, ◌≡◌, ◌≢◌, ◌<◌, ◌≤◌, ◌⊎◌,
  inl, inr, refl, sym, ap, subst, ◌∙◌, List, [], ◌∷◌, ◌++◌, arith, length, drop, take, replicate,
  All, ltb, leb, ◌==◌, lt→ltb, ltb→lt, Bool, true, false, Bool-cases, Option, none, some,
  if◌then◌else◌, ◌&&◌,
}
use pyomb.Prelude.Int.{ℤ, pos, negsuc, sub_ℕ}
use pyomb.Errors.{
  Result, ok, err, Error, packet_error, struct_error, catch_struct, catch_packet, catch_both, ◌>>=◌,
  >>=-eq-ok, catch_struct-eq-ok, catch_packet-eq-ok,
}
use pyomb.Struct.{Bytes, IsByte, Code, B, H, Format, width, calcsize, pack, unpack, repeat_count}
use pyomb.Pdu.Generic
use pyomb.Pdu.Error
use pyomb.Pdu.Packet
use pyomb.Pdu.Packet.{Packet}
use pyomb.Pdu.Classes
use pyomb.Pdu.Classes.{PduClass, class_of, pdu_id, is_request}
use pyomb.Pdu.Parser
use pyomb.Pdu.Parser.{
  Registry, get, register, default_registry, first_code, parse_request, parse_response,
}
use pyomb.Pdu.Registry.{IsKeyed}
use pyomb.Pdu.Dispatch.{parse_request-cons, parse_response-cons, parse_response-cons_error}
use pyomb.Pdu.Lossless.Requests.{rebuild_generic, rebuild_request}
use pyomb.Pdu.Lossless.Responses.{Counted, rebuild_response, rebuild_error}

-- Under a registry in which each class stands under its own PDU_ID, a byte string that parses as a
-- request is what the parsed packet serializes to.
pub serialize-parse_request :
    (r : Registry) (s : Bytes) (p : Packet)
    → IsKeyed r
    → All IsByte s
    → parse_request r s ≡ ok p
    → Packet.serialize p ≡ ok s
serialize-parse_request r [] p keyed bytes h = unfold parse_request first_code unpack in cc
serialize-parse_request r (b ∷ t) p keyed bytes h =
    let e = rw parse_request-cons at h in
    elim (keyed b) [
      | inl g ↦ rebuild_generic b t p bytes (rw g at e)
      | inr id ↦ rebuild_request b t p bytes (get r b) id e
    ]

-- Under a registry in which each class stands under its own PDU_ID, a byte string that parses as a
-- response is what the parsed packet serializes to, if the byte count of a response of function
-- code 1 or 2 is the number of its status bytes.
pub serialize-parse_response :
    (r : Registry) (s : Bytes) (p : Packet)
    → IsKeyed r
    → All IsByte s
    → Counted p
    → parse_response r s ≡ ok p
    → Packet.serialize p ≡ ok s
serialize-parse_response r [] p keyed bytes counted h =
    unfold parse_response first_code unpack in cc
serialize-parse_response r (b ∷ t) p keyed bytes counted h = elim (Bool-cases (ltb b 0x80)) [
  | inl low ↦
      let small = ltb→lt b 0x80 low in
      let e = rw (parse_response-cons r b t small) at h in
      elim (keyed (b + 0x8000)) [
        | inl g ↦ rebuild_generic b t p bytes (rw g at e)
        | inr id ↦ rebuild_response b t p bytes (get r (b + 0x8000)) small id counted e
      ]
  | inr high ↦ rebuild_error b t p bytes (parse_response-cons_error r b t p (ground arith) h)
]
