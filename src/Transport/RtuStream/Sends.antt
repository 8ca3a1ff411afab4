-- ===== src/Transport/RtuStream/Sends.antt =====
-- send of ModbusRtuStream, transport/rtu.py, at a port that writes all that it is given.
use pyomb.Prelude.{
  ℕ, zero, suc, ◌-◌, ◌≤◌, ◌≡◌, refl, sym, ap, subst, ◌∙◌, Bool, true, false, [], ◌∷◌, ◌++◌, length,
  ◌==◌, if◌then◌else◌, arith, length-append,
}
use pyomb.Errors.{Result, ok, network_error}
use pyomb.Struct.{Bytes}
use pyomb.Io.{Action, continue, as_network, pure, raise, ◌>>=◌}
use pyomb.Transport.Port
use pyomb.Transport.Port.{Line}
use pyomb.Transport.Socket
use pyomb.Transport.TcpStream.Sends.{taking}
use pyomb.Transport.RtuStream.{
  ModbusRtuStream, with_line, with_outbox, port_read, port_write, join_chunk, read_exactly,
  same_bytes, check_echo, send,
}
use pyomb.Transport.RtuStream.Clean.{held, read-held, split-front}

same_bytes_refl : (s : Bytes) → same_bytes s s ≡ true
unfolding same_bytes
same_bytes_refl [] = refl
same_bytes_refl (x ∷ s) =
    let same : (x == x) ≡ true = ground arith in rw (same, same_bytes_refl s) refl

-- A turn that reads some bytes leaves the others to the next turns.
read_exactly-turn :
    (n size b : ℕ) (c : Bytes) (t : ModbusRtuStream) (line : Line)
    → (size == 0) ≡ false
    → Port.read size t.line ≡ (ok (b ∷ c), line)
    → read_exactly (suc n) size t
      ≡ join_chunk (b ∷ c) (read_exactly n (size - length (b ∷ c))) (with_line line t)
unfolding read_exactly port_read
read_exactly-turn n size b c t line more_to_read read = rw (more_to_read, read) refl

join_chunk-some :
    (b : ℕ) (c s : Bytes) (next : Action ModbusRtuStream Bytes) (t u : ModbusRtuStream)
    → next t ≡ (ok s, u)
    → join_chunk (b ∷ c) next t ≡ (ok ((b ∷ c) ++ s), u)
unfolding join_chunk
join_chunk-some b c s next t u h = rw h refl

-- Bytes that are held are read, however they are cut.
read_exactly-held :
    (n : ℕ) (s more : Bytes) (t : ModbusRtuStream)
    → length s ≤ n
    → held t.line ≡ s ++ more
    → (left : Line) × (read_exactly n (length s) t ≡ (ok s, with_line left t)) × (held left ≡ more)
unfolding read_exactly
read_exactly-held zero [] m t h e = (t.line, refl, e)
read_exactly-held zero (x ∷ s) m t h e = absurd (omega arith)
read_exactly-held (suc n) [] m t h e = (t.line, refl, e)
read_exactly-held (suc n) (x ∷ s) m t h e =
    let more_to_read : (suc (length s) == 0) ≡ false = ground arith in
    let size = ap length e ∙ length-append (x ∷ s) m in
    let (b, c, line, read, cut, few) =
      read-held (suc (length s)) t.line (omega arith) (omega (arith, size)) in
    let (rest, parts, tail) = split-front (b ∷ c) (held line) (x ∷ s) m (cut ∙ e) few in
    let count = ap length parts ∙ length-append (b ∷ c) rest in
    let pending : suc (length s) - length (b ∷ c) ≡ length rest = omega (arith, count) in
    let (left, run, after) =
      read_exactly-held n rest m (with_line line t) (omega (arith, count)) tail in
    (
      left,
      read_exactly-turn n (suc (length s)) b c t line more_to_read read
          ∙ subst
              (λ (k : ℕ).
                join_chunk (b ∷ c) (read_exactly n k) (with_line line t)
                ≡ (ok (x ∷ s), with_line left t))
              (sym pending)
              (join_chunk-some b c rest (read_exactly n (length rest)) (with_line line t)
                  (with_line left t) run
                ∙ ap (λ (z : Bytes). (ok z, with_line left t)) (sym parts)),
      after,
    )

port_write-taking :
    (t : ModbusRtuStream) (message b : Bytes)
    → t.outbox ≡ taking b
    → port_write message t ≡ (ok (length message), with_outbox (taking (b ++ message)) t)
unfolding port_write Socket.send
port_write-taking t message b clear =
    ap (λ o. (as_network (Socket.send message o).0, with_outbox (Socket.send message o).1 t)) clear

-- What `send` does behind a write of the whole message, and then with an echo that is the message.
heard : ModbusRtuStream → Bytes → Bool → Bool → Result (Unit {0}) × ModbusRtuStream
heard u message whole echo =
    (if whole
        then if echo
          then (read_exactly (length message) (length message) >>= check_echo message)
          else pure tt
        else raise network_error)
      u

check_echo-heard :
    (t : ModbusRtuStream) (message : Bytes) → check_echo message message t ≡ (ok tt, t)
unfolding check_echo
check_echo-heard t message = rw (same_bytes_refl message) refl

-- What comes back on the line of a message that was written.
abbrev pub echo_of : Bool → Bytes → Bytes
echo_of true message = message
echo_of false message = []

heard-echo_of :
    (echo : Bool) (u : ModbusRtuStream) (message more : Bytes)
    → held u.line ≡ echo_of echo message ++ more
    → (left : Line) × (heard u message true echo ≡ (ok tt, with_line left u)) × (held left ≡ more)
unfolding heard
heard-echo_of false u message m e = (u.line, refl, e)
heard-echo_of true u message m e =
    let (left, read, after) = read_exactly-held (length message) message m u (omega arith) e in
    (
      left,
      ap (continue (check_echo message)) read ∙ check_echo-heard (with_line left u) message,
      after,
    )

-- Where the port writes all that it is given, and the line begins with the message where the stream
-- hears an echo, `send` sends the message, takes the echo, if any, off the line, however it is cut,
-- and changes nothing else of the stream.
pub send-echo :
    (t : ModbusRtuStream) (message b more : Bytes)
    → t.outbox ≡ taking b
    → held t.line ≡ echo_of t.echo message ++ more
    → (left : Line) × (send message t
        ≡ (ok tt, with_line left (with_outbox (taking (b ++ message)) t)))
      × (held left ≡ more)
unfolding send heard
send-echo t message b m clear e =
    let u = with_outbox (taking (b ++ message)) t in
    let whole : (length message == length message) ≡ true = ground arith in
    let (left, run, after) = heard-echo_of t.echo u message m e in
    (
      left,
      ap (continue (λ written v. heard v message (written == length message) t.echo))
            (port_write-taking t message b clear)
          ∙ ap (λ x. heard u message x t.echo) whole
          ∙ run,
      after,
    )
