-- ===== src/Transport/TcpStream/Sends.antt =====
-- send of transport/stream.py, where the socket takes all that it is given.
use pyomb.Prelude.{ℕ, zero, suc, ◌≡◌, sym, ap, ◌∙◌, List, [], ◌∷◌, ◌++◌, append_assoc, append-nil}
use pyomb.Prelude.Int.{pos}
use pyomb.Errors.{ok}
use pyomb.Struct.{Bytes}
use pyomb.Io.{as_network}
use pyomb.Transport.Fragmenter.{fragment, assemble}
use pyomb.Transport.Fragmenter.Whole.{assemble-fragment}
use pyomb.Transport.Socket
use pyomb.Transport.Socket.{Outbox}
use pyomb.Transport.TcpStream.{send, send_fragments}

abbrev pub taking : Bytes → Outbox
taking s = record { sent = s; room = [] }

send_fragments-assemble :
    (fs : List Bytes) (s : Bytes)
    → send_fragments fs (taking s) ≡ (ok tt, taking (s ++ assemble fs))
unfolding send_fragments Socket.send assemble
send_fragments-assemble [] s = ap (λ t. (ok tt, taking t)) (sym (append-nil s))
send_fragments-assemble (f ∷ fs) s =
    send_fragments-assemble fs (s ++ f)
    ∙ ap (λ t. (ok tt, taking t)) (append_assoc s f (assemble fs))

-- Where the socket takes all that it is given, `send` adds the message to what was sent, whatever
-- the fragment size is, if that is not negative.
pub send-whole :
    (size : ℕ) (message s : Bytes)
    → send (pos size) message (taking s) ≡ (ok tt, taking (s ++ message))
unfolding send
send-whole zero message s =
    let one : assemble (message ∷ []) ≡ message = unfold assemble in append-nil message in
    unfold fragment in
    ap (λ o. (as_network o.0, o.1))
      (send_fragments-assemble (message ∷ []) s ∙ ap (λ (t : Bytes). (ok tt, taking (s ++ t))) one)
send-whole (suc n) message s =
    let (head, fs, cut, _, _, whole) = assemble-fragment message n in
    rw (cut, send_fragments-assemble (head ∷ fs) s)
      (ap (λ (t : Bytes). (ok tt, taking (s ++ t))) whole)
