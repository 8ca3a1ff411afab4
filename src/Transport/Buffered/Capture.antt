-- ===== src/Transport/Buffered/Capture.antt =====
-- run_once of ModbusTcpSender and of ModbusTcpReceiver, transport/stream.py, together.
use pyomb.Prelude.{
  ℕ, ◌≡◌, refl, sym, ap, Bool, false, List, [], ◌∷◌, ◌++◌, append_assoc, append-nil,
}
use pyomb.Prelude.Int.{pos}
use pyomb.Errors.{ok}
use pyomb.Struct.{Bytes}
use pyomb.Pdu.Classes
use pyomb.Adu.Header
use pyomb.Adu.Tcp
use pyomb.Adu.Tcp.{ModbusTcpPacket}
use pyomb.Transport.Fragmenter.{assemble}
use pyomb.Transport.TcpStream
use pyomb.Transport.TcpStream.Sends.{taking, send-whole}
use pyomb.Transport.Buffered.{
  ModbusTcpSender, with_length, send_packet, send_packets, sent_packet, send_once,
}

-- Packets and what each serializes to.
abbrev pub Frames : List ModbusTcpPacket → List Bytes → Type 0
Frames [] [] = Unit
Frames (p ∷ ps) (s ∷ ss) = (Tcp.serialize p ≡ ok s) × Frames ps ss
Frames _ _ = ⊥

abbrev pub with_lengths : List ModbusTcpPacket → List ModbusTcpPacket
with_lengths [] = []
with_lengths (p ∷ ps) = with_length p ∷ with_lengths ps

send_packets-Frames :
    (size : ℕ) (ps : List ModbusTcpPacket) (ss : List Bytes) (s : Bytes)
    → Frames (with_lengths ps) ss
    → send_packets (pos size) ps (taking s) ≡ (ok tt, (with_lengths ps, taking (s ++ assemble ss)))
unfolding send_packets sent_packet send_packet assemble
send_packets-Frames size [] [] s h = ap (λ t. (ok tt, ([], taking t))) (sym (append-nil s))
send_packets-Frames size [] (f ∷ ss) s h = absurd h
send_packets-Frames size (p ∷ ps) [] s h = absurd h
send_packets-Frames size (p ∷ ps) (f ∷ ss) s h =
    rw (h.0, send-whole size f s, send_packets-Frames size ps ss (s ++ f) h.1)
      (ap (λ t. (ok tt, (with_lengths (p ∷ ps), taking t))) (append_assoc s f (assemble ss)))

-- The stop event is not set.
abbrev pub never : ℕ → Bool
never n = false

pub send_once-Frames :
    (size : ℕ) (sender : ModbusTcpSender) (ss : List Bytes)
    → sender.stopped ≡ false
    → sender.frag_size ≡ pos size
    → Frames (with_lengths sender.packets) ss
    → send_once sender (taking []) ≡ (
      ok tt,
      (
        record {
          packets = with_lengths sender.packets;
          frag_size = pos size;
          stream_size = pos size;
          stopped = false;
        },
        taking (assemble ss),
      ),
    )
unfolding send_once
send_once-Frames size sender ss running sized h =
    rw (running, sized, send_packets-Frames size sender.packets ss [] h) refl
