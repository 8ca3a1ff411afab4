-- ===== src/Transport/RtuStream/Clean.antt =====
-- receive of ModbusRtuStream, transport/rtu.py, on a line without noise.
use pyomb.Prelude.{
  ℕ, zero, suc, ◌+◌, ◌≤◌, ◌<◌, ◌≡◌, refl, sym, ap, ap₂, subst, ◌∙◌, [], ◌∷◌, ◌++◌, length, take,
  drop, arith, length-append, take-length, drop-length, take-append-drop, append_assoc, append-nil,
  length-take,
}
use pyomb.Errors.{ok}
use pyomb.Struct.{Bytes}
use pyomb.Io.{Action, continue, as_network}
use pyomb.Pdu.Parser.{Registry, default_registry}
use pyomb.Pdu.Sizes.Serialized.{Sizable}
use pyomb.Adu.Rtu.{ModbusRtuPacket, serialize}
use pyomb.Transport.Port
use pyomb.Transport.Port.{Line, quiet, fails, bytes, put_back, arriving}
use pyomb.Transport.Rtu.{RtuRead, more, accepted, read_rtu_frame}
use pyomb.Transport.Splitter.Clean.{Direction, read-serialize}
use pyomb.Transport.RtuStream.{
  ModbusRtuStream, with_line, with_buffer, with_noise, take_bytes, extend, port_read,
  receive_after_silence, receive_turn, receive_loop, receive, fuel,
}
use pyomb.Transport.RtuStream.Prefixes.{read_rtu_frame-front}

-- The bytes that arrive before the line times out or fails.
abbrev pub held : Line → Bytes
held [] = []
held (quiet ∷ q) = []
held (fails ∷ q) = []
held (bytes b t ∷ q) = (b ∷ t) ++ held q

held-put_back : (s : Bytes) (q : Line) → held (put_back s q) ≡ s ++ held q
held-put_back [] q = refl
held-put_back (b ∷ t) q = refl

held-arriving : (q : Line) → length (held q) ≤ arriving q
held-arriving [] = omega arith
held-arriving (quiet ∷ q) = omega arith
held-arriving (fails ∷ q) = omega arith
held-arriving (bytes b t ∷ q) = omega (arith, length-append t (held q), held-arriving q)

-- A read of no more bytes than are held gives some of them.
pub read-held :
    (w : ℕ) (q : Line)
    → 1 ≤ w
    → w ≤ length (held q)
    → (b : ℕ) × (c : Bytes) × (left : Line) × (Port.read w q ≡ (ok (b ∷ c), left))
      × ((b ∷ c) ++ held left ≡ held q)
      × (length (b ∷ c) ≤ w)
unfolding Port.read
read-held w [] h g = absurd (omega arith)
read-held w (quiet ∷ q) h g = absurd (omega arith)
read-held w (fails ∷ q) h g = absurd (omega arith)
read-held zero (bytes b t ∷ q) h g = absurd (omega arith)
read-held (suc w) (bytes b t ∷ q) h g = (
  b,
  take w t,
  put_back (drop w t) q,
  refl,
  ap (λ (u : Bytes). b ∷ (take w t ++ u)) (held-put_back (drop w t) q)
      ∙ ap (λ (u : Bytes). b ∷ u)
          (sym (append_assoc (take w t) (drop w t) (held q))
            ∙ ap (λ (u : Bytes). u ++ held q) (take-append-drop w t)),
  omega (arith, length-take w t),
)

-- Bytes at the front of two strings that are the same.
pub split-front :
    (c rest v more_bytes : Bytes)
    → c ++ rest ≡ v ++ more_bytes
    → length c ≤ length v
    → (v' : Bytes) × (v ≡ c ++ v') × (rest ≡ v' ++ more_bytes)
split-front [] rest v m e h = (v, refl, e)
split-front (x ∷ c) rest [] m e h = absurd (omega arith)
split-front (x ∷ c) rest (y ∷ v) m e h =
    let (v', same, tail) = split-front c rest v m (ap (drop 1) e) (omega arith) in
    let head : x ≡ y = let both = e in ground arith in
    (v', ap₂ (λ (z : ℕ) (u : Bytes). z ∷ u) (sym head) same, tail)

-- The turn that finds the frame, and one that asks for more of it.
turn-whole :
    (r : Registry) (next : Action ModbusRtuStream Bytes) (t : ModbusRtuStream) (g : ModbusRtuPacket)
    (v : RtuRead)
    → v ≡ accepted (length t.buffer) (ok g)
    → receive_turn r v v.packet next t ≡ (ok t.buffer, with_buffer [] t)
unfolding receive_turn take_bytes accepted
turn-whole r next t g v e =
    let s = t.buffer in
    ap (λ x. receive_turn r x x.packet next t) e
    ∙ ap₂ (λ (a z : Bytes). (ok a, with_buffer z t))
        (ap (take (length s)) (sym (append-nil s)) ∙ take-length s [])
        (ap (drop (length s)) (sym (append-nil s)) ∙ drop-length s [])

turn-asks :
    (r : Registry) (next : Action ModbusRtuStream Bytes) (t : ModbusRtuStream) (w : ℕ) (v : RtuRead)
    (b : ℕ) (c : Bytes) (left : Line)
    → v ≡ more w
    → Port.read w t.line ≡ (ok (b ∷ c), left)
    → receive_turn r v v.packet next t ≡ next (with_buffer (t.buffer ++ (b ∷ c)) (with_line left t))
unfolding receive_turn port_read extend
turn-asks r next t w v b c left e read =
    ap (λ x. receive_turn r x x.packet next t) e
    ∙ ap (λ o. continue (extend (receive_after_silence r) next) (as_network o.0, with_line o.1 t))
        read

loop-frame :
    (n : ℕ) (r : Registry) (t : ModbusRtuStream) (v more_bytes : Bytes) (g : ModbusRtuPacket)
    → length v < n
    → read_rtu_frame r (t.buffer ++ v) t.side ≡ accepted (length (t.buffer ++ v)) (ok g)
    → held t.line ≡ v ++ more_bytes
    → (left : Line) × (receive_loop n r t ≡ (ok (t.buffer ++ v), with_line left (with_buffer [] t)))
      × (held left ≡ more_bytes)
unfolding receive_loop
loop-frame zero r t v m g fits whole e = absurd (omega arith)
loop-frame (suc n) r t [] m g fits whole e =
    let same = append-nil t.buffer in
    let read : read_rtu_frame r t.buffer t.side ≡ accepted (length t.buffer) (ok g) =
      subst (λ (u : Bytes). read_rtu_frame r u t.side ≡ accepted (length u) (ok g)) same whole in
    (
      t.line,
      turn-whole r (receive_loop n r) t g (read_rtu_frame r t.buffer t.side) read
          ∙ ap (λ (u : Bytes). (ok u, with_buffer [] t)) (sym same),
      e,
    )
loop-frame (suc n) r t (y ∷ v) m g fits whole e =
    let (w, waits, positive, small) =
      read_rtu_frame-front r t.side t.buffer (y ∷ v) g (omega arith) whole in
    let size : length (held t.line) ≡ length (y ∷ v) + length m =
      ap length e ∙ length-append (y ∷ v) m in
    let (b, c, line, read, cut, few) = read-held w t.line positive (omega arith) in
    let (rest, parts, tail) = split-front (b ∷ c) (held line) (y ∷ v) m (cut ∙ e) (omega arith) in
    let u : ModbusRtuStream = with_buffer (t.buffer ++ (b ∷ c)) (with_line line t) in
    let joined : t.buffer ++ (y ∷ v) ≡ u.buffer ++ rest =
      ap (λ (z : Bytes). t.buffer ++ z) parts ∙ sym (append_assoc t.buffer (b ∷ c) rest) in
    let whole' : read_rtu_frame r (u.buffer ++ rest) u.side
        ≡ accepted (length (u.buffer ++ rest)) (ok g) =
      subst (λ (z : Bytes). read_rtu_frame r z t.side ≡ accepted (length z) (ok g)) joined whole in
    let count = ap length parts ∙ length-append (b ∷ c) rest in
    let (left, run, after) = loop-frame n r u rest m g (omega (arith, count)) whole' tail in
    (
      left,
      turn-asks r (receive_loop n r) t w (read_rtu_frame r t.buffer t.side) b c line waits read
          ∙ run
          ∙ ap (λ (z : Bytes). (ok z, with_line left (with_buffer [] t))) (sym joined),
      after,
    )

-- Where a packet of the side's direction whose size can be told from its fields serializes to a
-- frame, the stream holds no bytes, and the frame arrives, with or without more bytes, before the
-- line times out or fails, `receive` under the default registry returns the frame, however it is
-- cut into reads, holds nothing and leaves what follows the frame on the line.
pub receive-serialize_rtu :
    (t : ModbusRtuStream) (p q : ModbusRtuPacket) (s more_bytes : Bytes)
    → Direction t.side p.pdu
    → Sizable p.pdu
    → serialize p ≡ ok (s, q)
    → t.buffer ≡ []
    → held t.line ≡ s ++ more_bytes
    → (left : Line) × (receive default_registry t
        ≡ (ok s, with_line left (with_buffer [] (with_noise 0 t))))
      × (held left ≡ more_bytes)
unfolding receive
receive-serialize_rtu t p q s m d z h clear e =
    let (g, _, reads) = read-serialize t.side p q s d z h in
    let u = with_noise 0 t in
    let joined : t.buffer ++ s ≡ s = ap (λ (x : Bytes). x ++ s) clear in
    let whole : read_rtu_frame default_registry (u.buffer ++ s) u.side
        ≡ accepted (length (u.buffer ++ s)) (ok g) =
      subst (λ (x : Bytes). read_rtu_frame default_registry x t.side ≡ accepted (length x) (ok g))
        (sym joined) reads in
    let size = ap length e ∙ length-append s m in
    let (left, run, after) =
      loop-frame (fuel t) default_registry u s m g (omega (arith, size, held-arriving t.line)) whole
        e in
    (left, run ∙ ap (λ (x : Bytes). (ok x, with_line left (with_buffer [] u))) joined, after)
