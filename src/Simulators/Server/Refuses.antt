-- ===== src/Simulators/Server/Refuses.antt =====
-- on_data of simulators/server.py: a PDU that is refused, and a response that does not serialize.
use pyomb.Prelude.{
  ℕ, ◌+◌, ◌*◌, ◌<◌, ◌≤◌, ◌≡◌, ◌⊎◌, refl, ap, subst, ◌∙◌, true, false, none, List, [], ◌∷◌, ◌++◌,
  length, arith, ltb, Bool-cases, inl, inr, take, drop,
}
use pyomb.Prelude.Int.{pos}
use pyomb.Errors.{
  Result, ok, err, Error, packet_error, struct_error, protocol_error, ModbusHeader, catch_struct,
  >>=-eq-err,
}
use pyomb.Struct.{Bytes, Format, bound, pack}
use pyomb.Pdu.Common.{pack_pdu}
use pyomb.Pdu.Packet
use pyomb.Pdu.Packet.{Packet}
use pyomb.Pdu.Error
use pyomb.Pdu.Error.{ModbusError}
use pyomb.Pdu.Dispatch.{parse_response-error}
use pyomb.Pdu.Registers.ResponseFc3
use pyomb.Pdu.Registers.ResponseFc4
use pyomb.Pdu.Registers.ResponseFc23
use pyomb.Pdu.Parser.{default_registry, parse_request, parse_response}
use pyomb.Pdu.RoundTrip.{length-serialize}
use pyomb.Adu.Header
use pyomb.Adu.Tcp
use pyomb.Adu.Tcp.{ModbusTcpPacket, deserialize_request, deserialize_response}
use pyomb.Adu.Tcp.RoundTrip.{serialize-eq-ok, deserialize_response-append}
use pyomb.Adu.Tcp.Errors.{deserialize_request-refused}
use pyomb.Transport.Socket.{Outbox}
use pyomb.Transport.TcpStream.Sends.{taking}
use pyomb.Simulators.Responses.{create_rsp, response_pdu}
use pyomb.Simulators.Responses.Answered.{Written}
use pyomb.Simulators.Server.{ModbusServerSimulator, echoed, answer, respond, handle, on_data}
use pyomb.Simulators.Server.Answers.{answer-taking, echoed-serializes}

-- The exception response to a function code, where the code leaves room for the error bit.
abbrev pub refusal : ℕ → Packet
refusal code = Packet.error (record { fc = pos code; exc_code = 0x03 })

refusal-Written : (code : ℕ) → code < 128 → Written (Packet.serialize (refusal code))
unfolding Packet.serialize Error.serialize Error.pack_int pack
refusal-Written code small =
    let fits : ltb (code + 128) 256 ≡ true = ground arith in
    ((code + 128) ∷ 3 ∷ [], rw fits refl, omega arith)

-- Where ModbusTcpRequest would refuse the PDU of a frame whose header is well formed, the server
-- sends, whatever its settings, one frame that a client reads back under the default registry as
-- exception 3 of the frame's function code under its identifiers, if that code is below 128, the
-- parser refused with a packet error and the socket takes all that it is given.
pub on_data-refuses :
    (server : ModbusServerSimulator) (m t b : Bytes) (h : ModbusHeader) (code : ℕ)
    → Header.deserialize (take 7 m) ≡ ok h
    → Header.serialize h ≡ ok (take 7 m)
    → length m ≡ 6 + h.length
    → code ∷ t ≡ drop 7 m
    → code < 128
    → parse_request default_registry (drop 7 m) ≡ err packet_error
    → (s : Bytes) × (on_data server m (taking b) ≡ (ok tt, taking (b ++ s)))
      × (deserialize_response (parse_response default_registry) s ≡ ok (echoed h (refusal code)))
unfolding on_data respond
on_data-refuses server m t b h code d e size at small refused =
    let (s, g) = echoed-serializes h (refusal code) (take 7 m) e (refusal-Written code small) in
    let (c, u, hc, pu, whole) = serialize-eq-ok (echoed h (refusal code)) s g in
    (
      s,
      ap (λ r. respond server r (taking b))
            (deserialize_request-refused (parse_request default_registry) m t h code d size at
              refused)
          ∙ answer-taking h (refusal code) b s g,
      subst
          (λ v.
            deserialize_response (parse_response default_registry) v ≡ ok (echoed h (refusal code)))
          whole
          (deserialize_response-append (parse_response default_registry)
            (echoed h (refusal code)).header c u hc (refusal code)
            (omega (arith, length-serialize (refusal code) u pu))
            (parse_response-error default_registry code 3 u (unfold Packet.serialize in pu))),
    )

pack-struct_error : (f : Format) (vs : List ℕ) (e : Error) → pack f vs ≡ err e → e ≡ struct_error
unfolding pack
pack-struct_error [] [] e h = absurd (let bad = h in cc)
pack-struct_error [] (v ∷ vs) e h = ground arith
pack-struct_error (c ∷ f) [] e h = ground arith
pack-struct_error (c ∷ f) (v ∷ vs) e h = elim (Bool-cases (ltb v (bound c))) [
  | inr large ↦ let out = rw large at h in ground arith
  | inl fits ↦ elim (>>=-eq-err (pack f vs) _ (rw fits at h)) [
    | inl rest ↦ pack-struct_error f vs e rest
    | inr (s, _, done) ↦ absurd (let bad = done in cc)
  ]
]

header-outcome :
    (h : ModbusHeader)
    → ((a : Bytes) × (Header.serialize h ≡ ok a)) ⊎ (Header.serialize h ≡ err packet_error)
unfolding Header.serialize
header-outcome h = outcome (pack Header.header_fmt (Header.fields h)) (λ e. pack-struct_error _ _ e)
  where
    outcome :
        (r : Result Bytes)
        → ((e : Error) → r ≡ err e → e ≡ struct_error)
        → ((a : Bytes) × (catch_struct r ≡ ok a)) ⊎ (catch_struct r ≡ err packet_error)
    outcome (ok a) f = inl (a, refl)
    outcome (err e) f = inr (ap (λ x. catch_struct (err x)) (f e refl))

-- How many registers a request asks to read.
abbrev pub registers_read : Packet → ℕ
registers_read (Packet.request_fc3 p) = p.quantity
registers_read (Packet.request_fc4 p) = p.quantity
registers_read (Packet.request_fc23 p) = p.read_quantity
registers_read p = 0

-- The response to a read of too many registers has a byte count that its field does not hold.
registers-overflow :
    (p : Packet) → 128 ≤ registers_read p → Packet.serialize (create_rsp p) ≡ err packet_error
unfolding create_rsp Packet.serialize ResponseFc3.serialize ResponseFc4.serialize
    ResponseFc23.serialize pack_pdu pack
registers-overflow (Packet.request_fc3 p) many =
    let over : ltb (2 * p.quantity) 256 ≡ false = ground arith in rw over refl
registers-overflow (Packet.request_fc4 p) many =
    let over : ltb (2 * p.quantity) 256 ≡ false = ground arith in rw over refl
registers-overflow (Packet.request_fc23 p) many =
    let over : ltb (2 * p.read_quantity) 256 ≡ false = ground arith in rw over refl
registers-overflow p many = absurd (omega arith)

unsent :
    (h : ModbusHeader) (p : Packet)
    → Packet.serialize p ≡ err packet_error
    → Tcp.serialize (echoed h p) ≡ err packet_error
unfolding Tcp.serialize
unsent h p e = elim (header-outcome (echoed h p).header) [
  | inl (a, fits) ↦ rw (fits, e) refl
  | inr bad ↦ rw bad refl
]

-- A server that is not set to fail and has no handler, asked by a request of function code 3, 4 or
-- 23 to read 128 registers or more, sends nothing and raises a device failure: the response's byte
-- count does not fit its field.
pub on_data-overflow :
    (server : ModbusServerSimulator) (m : Bytes) (h : ModbusHeader) (p : Packet) (o : Outbox)
    → server.fail ≡ false
    → server.data_handler ≡ none
    → deserialize_request (parse_request default_registry) m ≡ ok (record { header = h; pdu = p })
    → 128 ≤ registers_read p
    → on_data server m o ≡ (err (protocol_error 4), o)
unfolding on_data respond handle response_pdu answer
on_data-overflow server m h p o works plain parsed many =
    rw (parsed, works, plain, unsent h (create_rsp p) (registers-overflow p many)) refl
