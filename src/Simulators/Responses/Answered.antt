-- ===== src/Simulators/Responses/Answered.antt =====
-- The responses of ResponseFactory, simulators/server.py: their function codes, and which can be sent.
use pyomb.Prelude.{
  ℕ, zero, suc, ◌<◌, ◌≡◌, refl, Bool, true, false, List, ◌∷◌, length, replicate, arith,
}
use pyomb.Errors.{Result, ok, catch_struct, catch_packet}
use pyomb.Struct.{Bytes, B, H, Code, Format, bound, pack, calcsize}
use pyomb.Struct.Laws.{Fits, pack_total, pack-Packed, calcsize-replicate}
use pyomb.Pdu.Packet.{Packet}
use pyomb.Pdu.RoundTrip.{IsRequest, IsResponse}
use pyomb.Simulators.Responses.{fc, create_rsp, response_pdu}

fc-create_rsp : (p : Packet) → fc (create_rsp p) ≡ fc p
unfolding fc create_rsp
fc-create_rsp (Packet.generic p) = refl
fc-create_rsp (Packet.error p) = refl
fc-create_rsp (Packet.request_fc1 p) = refl
fc-create_rsp (Packet.response_fc1 p) = refl
fc-create_rsp (Packet.request_fc2 p) = refl
fc-create_rsp (Packet.response_fc2 p) = refl
fc-create_rsp (Packet.request_fc3 p) = refl
fc-create_rsp (Packet.response_fc3 p) = refl
fc-create_rsp (Packet.request_fc4 p) = refl
fc-create_rsp (Packet.response_fc4 p) = refl
fc-create_rsp (Packet.request_fc5 p) = refl
fc-create_rsp (Packet.response_fc5 p) = refl
fc-create_rsp (Packet.request_fc6 p) = refl
fc-create_rsp (Packet.response_fc6 p) = refl
fc-create_rsp (Packet.request_fc7 p) = refl
fc-create_rsp (Packet.response_fc7 p) = refl
fc-create_rsp (Packet.request_fc8 p) = refl
fc-create_rsp (Packet.response_fc8 p) = refl
fc-create_rsp (Packet.request_fc15 p) = refl
fc-create_rsp (Packet.response_fc15 p) = refl
fc-create_rsp (Packet.request_fc16 p) = refl
fc-create_rsp (Packet.response_fc16 p) = refl
fc-create_rsp (Packet.request_fc22 p) = refl
fc-create_rsp (Packet.response_fc22 p) = refl
fc-create_rsp (Packet.request_fc23 p) = refl
fc-create_rsp (Packet.response_fc23 p) = refl
fc-create_rsp (Packet.request_fc43 p) = refl
fc-create_rsp (Packet.response_fc43 p) = refl

-- A response has the function code of the PDU that it answers, whether the server is set to fail,
-- the handler refused or neither.
pub fc-response_pdu : (fail rslt_ok : Bool) (p : Packet) → fc (response_pdu fail rslt_ok p) ≡ fc p
unfolding response_pdu
fc-response_pdu true rslt_ok p = unfold fc in refl
fc-response_pdu false true p = fc-create_rsp p
fc-response_pdu false false p = unfold fc in refl

-- The requests that the server has a response for: all but diagnostics.
abbrev pub IsServed : Packet → Type 0
IsServed (Packet.request_fc8 p) = ⊥
IsServed p = IsRequest p

-- What the server has for such a request is a response.
pub create_rsp-IsResponse : (p : Packet) → IsServed p → IsResponse (create_rsp p)
unfolding create_rsp
create_rsp-IsResponse (Packet.request_fc1 p) h = tt
create_rsp-IsResponse (Packet.request_fc2 p) h = tt
create_rsp-IsResponse (Packet.request_fc3 p) h = tt
create_rsp-IsResponse (Packet.request_fc4 p) h = tt
create_rsp-IsResponse (Packet.request_fc5 p) h = tt
create_rsp-IsResponse (Packet.request_fc6 p) h = tt
create_rsp-IsResponse (Packet.request_fc7 p) h = tt
create_rsp-IsResponse (Packet.request_fc15 p) h = tt
create_rsp-IsResponse (Packet.request_fc16 p) h = tt
create_rsp-IsResponse (Packet.request_fc22 p) h = tt
create_rsp-IsResponse (Packet.request_fc23 p) h = tt
create_rsp-IsResponse (Packet.request_fc43 p) h = tt
create_rsp-IsResponse (Packet.request_fc8 p) h = absurd h
create_rsp-IsResponse (Packet.generic p) h = absurd h
create_rsp-IsResponse (Packet.error p) h = absurd h
create_rsp-IsResponse (Packet.response_fc1 p) h = absurd h
create_rsp-IsResponse (Packet.response_fc2 p) h = absurd h
create_rsp-IsResponse (Packet.response_fc3 p) h = absurd h
create_rsp-IsResponse (Packet.response_fc4 p) h = absurd h
create_rsp-IsResponse (Packet.response_fc5 p) h = absurd h
create_rsp-IsResponse (Packet.response_fc6 p) h = absurd h
create_rsp-IsResponse (Packet.response_fc7 p) h = absurd h
create_rsp-IsResponse (Packet.response_fc15 p) h = absurd h
create_rsp-IsResponse (Packet.response_fc16 p) h = absurd h
create_rsp-IsResponse (Packet.response_fc22 p) h = absurd h
create_rsp-IsResponse (Packet.response_fc23 p) h = absurd h
create_rsp-IsResponse (Packet.response_fc43 p) h = absurd h
create_rsp-IsResponse (Packet.response_fc8 p) h = absurd h

Fits-replicate : (n v : ℕ) (c : Code) → v < bound c → Fits (replicate n c) (replicate n v)
Fits-replicate zero v c h = tt
Fits-replicate (suc n) v c h = (h, Fits-replicate n v c h)

-- A byte string that is written, no longer than a header can say.
abbrev pub Written : Result Bytes → Type 0
Written r = (s : Bytes) × (r ≡ ok s) × (length s < 65535)

-- Values that fit are packed, under the `except` clauses too.
pub packs :
    (f : Format) (vs : List ℕ)
    → Fits f vs
    → calcsize f < 65535
    → Written (catch_packet (catch_struct (pack f vs)))
packs f vs h g =
    let (s, e) = pack_total f vs h in (s, rw e refl, omega (arith, (pack-Packed f vs s e).sized))

-- A tail of equal values, counted.
pub packs_tail :
    (fc size n v : ℕ) (c : Code)
    → fc < 256
    → size < 256
    → n < 256
    → v < bound c
    → Written
        (catch_packet (catch_struct (pack (B ∷ B ∷ replicate n c) (fc ∷ size ∷ replicate n v))))
packs_tail fc size n v B h g m k =
    packs _ _ (h, (g, Fits-replicate n v B k)) (omega (arith, calcsize-replicate n B))
packs_tail fc size n v H h g m k =
    packs _ _ (h, (g, Fits-replicate n v H k)) (omega (arith, calcsize-replicate n H))
