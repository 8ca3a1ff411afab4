-- ===== src/Transport/Splitter/Accounts.antt =====
-- ModbusRtuSplitter of transport/rtu.py: what becomes of the bytes pushed.
use pyomb.Prelude.{
  ℕ, suc, ◌+◌, ◌≤◌, ◌≡◌, subst, List, [], ◌∷◌, ◌++◌, some, arith, length, take, drop, All,
  All-append, All-take, All-drop, take-append-drop,
}
use pyomb.Errors.{ok}
use pyomb.Struct.{Bytes, IsByte}
use pyomb.Pdu.Parser.{Registry}
use pyomb.Adu.Rtu.{ModbusRtuPacket, serialize}
use pyomb.Adu.Rtu.Transparent.{serialize-deserialize_packet}
use pyomb.Transport.Rtu.Reads.{read_rtu_frame-Framed, read_rtu_frame-long}
use pyomb.Transport.Splitter.{ModbusRtuSplitter, extend, consume, read, push}
use pyomb.Transport.Splitter.Scan.{Scan, push-Scan}

-- A byte string is frames, in order, a number of bytes between them, and a rest.
pub data Cut : Bytes → List Bytes → ℕ → Bytes → Type 0 where
  rest : (s : Bytes) → Cut s [] 0 s
  frame :
      (b s : Bytes) (bs : List Bytes) (n : ℕ) (u : Bytes) → Cut s bs n u → Cut (b ++ s) (b ∷ bs) n u
  junk :
      (x : ℕ) (s : Bytes) (bs : List Bytes) (n : ℕ) (u : Bytes)
      → Cut s bs n u
      → Cut (x ∷ s) bs (suc n) u

-- The packets serialize to the byte strings, their checksums unchanged.
abbrev pub Wires : List ModbusRtuPacket → List Bytes → Type 0
Wires [] [] = Unit
Wires (f ∷ fs) (b ∷ bs) = (serialize f ≡ ok (b, f)) × Wires fs bs
Wires _ _ = ⊥

-- What became of the bytes held between two states.
pub record Accounted (t : ModbusRtuSplitter) (fs : List ModbusRtuPacket) (u : ModbusRtuSplitter)
    : Type 0 where
  pub frames : List Bytes
  pub dropped : ℕ
  pub cut : Cut t.buffer frames dropped u.buffer
  pub wires : Wires fs frames
  pub counted : u.resyncs ≡ t.resyncs + dropped

Accounted-found :
    (r : Registry) (t u : ModbusRtuSplitter) (p : ModbusRtuPacket) (fs : List ModbusRtuPacket)
    → All IsByte t.buffer
    → (read r t).packet ≡ some p
    → Accounted (consume (read r t).length t) fs u
    → Accounted t (p ∷ fs) u
Accounted-found r t u p fs bytes h a =
    let f = read_rtu_frame-Framed r t.buffer t.side p h in
    let n = (read r t).length in
    let b = take n t.buffer in
    let whole = take-append-drop n t.buffer in
    record {
      frames = b ∷ a.frames;
      dropped = a.dropped;
      cut =
          subst (λ s. Cut s (b ∷ a.frames) a.dropped u.buffer) whole
            (frame b (drop n t.buffer) a.frames a.dropped u.buffer a.cut);
      wires =
          (serialize-deserialize_packet b p (All-take IsByte n t.buffer bytes) f.accepted, a.wires);
      counted = a.counted;
    }

junk_front :
    (s : Bytes) (bs : List Bytes) (n : ℕ) (u : Bytes)
    → 1 ≤ length s
    → Cut (drop 1 s) bs n u
    → Cut s bs (suc n) u
junk_front [] bs n u long c = absurd (omega arith)
junk_front (x ∷ s) bs n u long c = junk x s bs n u c

pub Scan-Accounted :
    (r : Registry) (t u : ModbusRtuSplitter) (fs : List ModbusRtuPacket)
    → All IsByte t.buffer
    → Scan r t fs u
    → Accounted t fs u
Scan-Accounted r _ _ _ bytes (Scan.quiet t h k) = record {
  frames = [];
  dropped = 0;
  cut = rest t.buffer;
  wires = tt;
  counted = omega arith;
}
Scan-Accounted r _ _ _ bytes (Scan.found t u p fs h s) =
    Accounted-found r t u p fs bytes h
      (Scan-Accounted r _ u fs (All-drop IsByte (read r t).length t.buffer bytes) s)
Scan-Accounted r _ _ _ bytes (Scan.noise t u fs h k s) =
    let a = Scan-Accounted r _ u fs (All-drop IsByte 1 t.buffer bytes) s in
    let long = read_rtu_frame-long r t.buffer t.side k in
    record {
      frames = a.frames;
      dropped = suc a.dropped;
      cut = junk_front t.buffer a.frames a.dropped u.buffer (omega arith) a.cut;
      wires = a.wires;
      counted = omega (arith, a.counted);
    }

-- Where what is held and what is pushed are bytes, the held and pushed bytes are, in order, the
-- frames to which the returned packets serialize, as many other bytes as the count of
-- resynchronisations grew by, and the bytes then held.
pub push-Accounted :
    (r : Registry) (stream : Bytes) (t : ModbusRtuSplitter)
    → All IsByte t.buffer
    → All IsByte stream
    → Accounted (extend stream t) (push r stream t).0 (push r stream t).1
push-Accounted r stream t held new =
    Scan-Accounted r _ _ _ (All-append IsByte t.buffer stream held new) (push-Scan r stream t)
