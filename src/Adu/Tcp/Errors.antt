-- ===== src/Adu/Tcp/Errors.antt =====
-- How ModbusTcpRequest of adu/tcp.py refuses a frame: with a parse error, which names a header and
-- a function code, or with a packet error.
use pyomb.Prelude.{
  ℕ, ◌+◌, ◌≡◌, ◌≢◌, ◌==◌, true, sym, inl, inr, ◌-◌, refl, subst, [], ◌∷◌, arith, length, take, drop,
}
use pyomb.Errors.{
  Result, ok, err, Error, packet_error, pdu_parse_error, catch_packet, ModbusHeader, >>=-eq-ok,
  >>=-eq-err, catch_packet-eq-ok,
}
use pyomb.Struct.{Bytes}
use pyomb.Pdu.Packet.{Packet}
use pyomb.Adu.Header
use pyomb.Adu.Header.{validate_mbap_length}
use pyomb.Adu.Tcp.{deserialize_request, read_header, refuse_pdu}
use pyomb.Adu.Tcp.RoundTrip.{validate_mbap_length-eq-ok}

catch_packet-ne :
    {A : Type 0} (m : Result A) (h : ModbusHeader) (fc : ℕ)
    → catch_packet m ≢ err (pdu_parse_error h fc)
catch_packet-ne (ok a) h fc e = cc
catch_packet-ne (err packet_error) h fc e = cc
catch_packet-ne (err (pdu_parse_error x y)) h fc e = cc
catch_packet-ne (err _) h fc e = cc

not_header : (s : Bytes) (h : ModbusHeader) (fc : ℕ) → read_header s ≢ err (pdu_parse_error h fc)
unfolding read_header
not_header s h fc = catch_packet-ne _ h fc

-- What a parse error says of the clause that raised it.
refuse_pdu-inv :
    (header h : ModbusHeader) (b : Bytes) (r : Result Packet) (fc : ℕ)
    → refuse_pdu header b r ≡ err (pdu_parse_error h fc)
    → (header ≡ h) × ((t : Bytes) × (fc ∷ t ≡ b)) × ((e : Error) × (r ≡ err e))
unfolding refuse_pdu
refuse_pdu-inv header h b (ok p) fc e = cc
refuse_pdu-inv header h [] (err packet_error) fc e = cc
refuse_pdu-inv header h [] (err (pdu_parse_error x y)) fc e = cc
refuse_pdu-inv header h (c ∷ t) (err packet_error) fc e =
    (ground arith, (t, ground arith), (packet_error, refl))
refuse_pdu-inv header h (c ∷ t) (err (pdu_parse_error x y)) fc e =
    (ground arith, (t, ground arith), (pdu_parse_error x y, refl))
refuse_pdu-inv header h b (err x) fc e = cc

read_header-eq-ok :
    (s : Bytes) (h : ModbusHeader)
    → read_header s ≡ ok h
    → (Header.deserialize (take 7 s) ≡ ok h) × (length s ≡ 6 + h.length)
unfolding read_header
read_header-eq-ok s h e =
    let (k, d, r) = >>=-eq-ok (Header.deserialize (take 7 s)) _ (catch_packet-eq-ok _ e) in
    let (_, v, built) = >>=-eq-ok (validate_mbap_length k s) _ r in
    let same : k ≡ h = ground arith in
    subst (λ x. (Header.deserialize (take 7 s) ≡ ok x) × (length s ≡ 6 + x.length)) same
      (d, validate_mbap_length-eq-ok k s v)

-- Where ModbusTcpRequest raises a parse error with a header and a function code, the first seven
-- bytes are that header, the frame has the length that the header says, the function code is the
-- first byte behind the header, and the parser refused what is behind the header.
pub deserialize_request-parse_error :
    (parse : Bytes → Result Packet) (s : Bytes) (h : ModbusHeader) (fc : ℕ)
    → deserialize_request parse s ≡ err (pdu_parse_error h fc)
    → (Header.deserialize (take 7 s) ≡ ok h)
      × (length s ≡ 6 + h.length)
      × ((t : Bytes) × (fc ∷ t ≡ drop 7 s))
      × ((e : Error) × (parse (drop 7 s) ≡ err e))
unfolding deserialize_request
deserialize_request-parse_error parse s h fc e = elim (>>=-eq-err (read_header s) _ e) [
  | inl bad ↦ absurd (not_header s h fc bad)
  | inr (k, read, r) ↦ elim (>>=-eq-err (refuse_pdu k (drop 7 s) (parse (drop 7 s))) _ r) [
    | inr (pdu, _, built) ↦ absurd (let b = built in cc)
    | inl refused ↦
        let (same, at, why) = refuse_pdu-inv k h (drop 7 s) (parse (drop 7 s)) fc refused in
        let (d, size) = read_header-eq-ok s k read in
        (
          subst (λ x. Header.deserialize (take 7 s) ≡ ok x) same d,
          subst (λ x. length s ≡ 6 + x.length) same size,
          at,
          why,
        )
  ]
]

-- Where the first seven bytes are a header, the frame has the length that the header says and what
-- is behind it begins with a function code and is refused by the parser with a packet error,
-- ModbusTcpRequest raises the parse error with that header and that function code.
pub deserialize_request-refused :
    (parse : Bytes → Result Packet) (s t : Bytes) (h : ModbusHeader) (fc : ℕ)
    → Header.deserialize (take 7 s) ≡ ok h
    → length s ≡ 6 + h.length
    → fc ∷ t ≡ drop 7 s
    → parse (drop 7 s) ≡ err packet_error
    → deserialize_request parse s ≡ err (pdu_parse_error h fc)
unfolding deserialize_request read_header validate_mbap_length refuse_pdu
deserialize_request-refused parse s t h fc d size at refused =
    let good : (length s == 7 + h.length - 1) ≡ true = ground arith in
    rw (d, good, refused, sym at) refl
