-- ===== src/Transport/RtuStream/Fuel.antt =====
-- The loop of receive of ModbusRtuStream, transport/rtu.py, with fuel and without.
use pyomb.Prelude.{
  ◌⊎◌, inl, inr, sym, subst, ◌∙◌, ℕ, zero, suc, ◌+◌, ◌≤◌, ◌<◌, ◌≡◌, refl, Bool, true, false, not,
  ◌&&◌, Option, none, some, [], ◌∷◌, ◌++◌, length, drop, ◌==◌, if◌then◌else◌, arith, length-append,
  length-take, length-drop,
}
use pyomb.Errors.{Result, ok, err, os_error}
use pyomb.Struct.{Bytes}
use pyomb.Io.{Action, continue, as_network}
use pyomb.Pdu.Parser.{Registry}
use pyomb.Adu.Rtu.{ModbusRtuPacket}
use pyomb.Transport.Port
use pyomb.Transport.Port.{Line, quiet, fails, bytes, put_back, arriving}
use pyomb.Transport.Rtu.{RtuRead, read_rtu_frame}
use pyomb.Transport.Rtu.Reads.{read_rtu_frame-long}
use pyomb.Transport.RtuStream.{
  ModbusRtuStream, with_line, with_buffer, discard, extend, port_read, receive_after_silence,
  receive_turn, receive_loop, receive, with_noise, fuel,
}

arriving-put_back : (s : Bytes) (q : Line) → arriving (put_back s q) ≡ length s + arriving q
arriving-put_back [] q = omega arith
arriving-put_back (b ∷ t) q = refl

-- A turn of the loop, with what follows it.
unfoldable pub turn : Registry → Action ModbusRtuStream Bytes → Action ModbusRtuStream Bytes
turn r next t = let v = read_rtu_frame r t.buffer t.side in receive_turn r v v.packet next t

-- An outcome of a read whose bytes were on a line of so many.
abbrev Shrinks : ℕ → Result Bytes × Line → Type 0
Shrinks m (ok c, q) = length c + arriving q ≤ m
Shrinks m (err e, q) = Unit

read-Shrinks : (n : ℕ) (q : Line) → Shrinks (arriving q) (Port.read n q)
unfolding Port.read
read-Shrinks n [] = omega arith
read-Shrinks n (quiet ∷ q) = omega arith
read-Shrinks n (fails ∷ q) = tt
read-Shrinks n (bytes b t ∷ q) =
    let s : Bytes = b ∷ t in
    omega (arith, arriving-put_back (drop n s) q, length-take n s, length-drop n s)

-- The loop of `receive` without fuel: a turn that gives the outcome whatever follows it, or that goes on,
-- whatever follows it, with a stream from which the loop comes to the outcome.
pub data Runs (r : Registry) : ModbusRtuStream → Result Bytes × ModbusRtuStream → Type 0 where
  ends :
      (t : ModbusRtuStream) (o : Result Bytes × ModbusRtuStream)
      → ((next : Action ModbusRtuStream Bytes) → turn r next t ≡ o)
      → Runs r t o
  goes_on :
      (t u : ModbusRtuStream) (o : Result Bytes × ModbusRtuStream)
      → ((next : Action ModbusRtuStream Bytes) → turn r next t ≡ next u)
      → Runs r u o
      → Runs r t o

-- What a turn on a stream of so much fuel does with what follows: nothing, or one go at less fuel.
abbrev Turns : ℕ → (Action ModbusRtuStream Bytes → Result Bytes × ModbusRtuStream) → Type 0
Turns m f =
    ((o : Result Bytes × ModbusRtuStream) × ((next : Action ModbusRtuStream Bytes) → f next ≡ o))
    ⊎ ((u : ModbusRtuStream) × (fuel u < m)
        × ((next : Action ModbusRtuStream Bytes) → f next ≡ next u))

extend-Turns :
    (silent : Action ModbusRtuStream Bytes) (t : ModbusRtuStream) (o : Result Bytes × Line)
    → Shrinks (arriving t.line) o
    → Turns (fuel t) (λ next. continue (extend silent next) (as_network o.0, with_line o.1 t))
unfolding extend
extend-Turns silent t (err os_error, q) h = inl (_, λ next. refl)
extend-Turns silent t (err e, q) h = inl (_, λ next. refl)
extend-Turns silent t (ok [], q) h = inl (_, λ next. refl)
extend-Turns silent t (ok (b ∷ s), q) h = inr (
  with_buffer (t.buffer ++ (b ∷ s)) (with_line q t),
  omega (arith, length-append t.buffer (b ∷ s)),
  λ next. refl,
)

discard-Turns :
    (t : ModbusRtuStream) → 1 ≤ length t.buffer → Turns (fuel t) (λ next. next (discard t))
unfolding discard
discard-Turns t h = inr (discard t, omega (arith, length-drop 1 t.buffer), λ next. refl)

if-Turns :
    (b : Bool) (m : ℕ) (f g : Action ModbusRtuStream Bytes → Result Bytes × ModbusRtuStream)
    → (b ≡ true → Turns m f)
    → (b ≡ false → Turns m g)
    → Turns m (λ next. if b then f next else g next)
if-Turns true m f g h k = h refl
if-Turns false m f g h k = k refl

receive_turn-Turns :
    (r : Registry) (v : RtuRead) (q : Option ModbusRtuPacket) (t : ModbusRtuStream)
    → (v.incomplete ≡ false → 1 ≤ length t.buffer)
    → Turns (fuel t) (λ next. receive_turn r v q next t)
unfolding receive_turn port_read
receive_turn-Turns r v (some p) t held = inl (_, λ next. refl)
receive_turn-Turns r v none t held =
    if-Turns (not v.sizable && (t.noise == 0)) (fuel t) _ _ (λ _. inl (_, λ next. refl))
      (λ _.
        if-Turns (not v.incomplete) (fuel t) _ _
          (λ whole. discard-Turns t (held (not-true v.incomplete whole)))
          (λ _.
            extend-Turns (receive_after_silence r) t (Port.read v.wanted t.line)
              (read-Shrinks v.wanted t.line)))
  where
    not-true : (b : Bool) → not b ≡ true → b ≡ false
    not-true true h = absurd cc
    not-true false h = refl

receive_loop-Runs :
    (n : ℕ) (r : Registry) (t : ModbusRtuStream) → fuel t ≤ n → Runs r t (receive_loop n r t)
unfolding receive_loop turn
receive_loop-Runs zero r t h = absurd (omega arith)
receive_loop-Runs (suc n) r t h =
    elim (receive_turn-Turns r (read_rtu_frame r t.buffer t.side)
      (read_rtu_frame r t.buffer t.side).packet t
      (λ whole. omega (arith, read_rtu_frame-long r t.buffer t.side whole))) [
        | inl (o, done) ↦ ends t _ (λ next. done next ∙ sym (done (receive_loop n r)))
        | inr (u, less, on) ↦
            goes_on t u _ on (
              subst (Runs r u) (sym (on (receive_loop n r)))
                (receive_loop-Runs n r u (omega arith)))
      ]

-- Whatever the port answers and whatever was held, the loop of an RTU stream's `receive`, taken
-- turn by turn with no fuel, comes to an end, with just what `receive` gives.
pub receive-Runs : (r : Registry) (t : ModbusRtuStream) → Runs r (with_noise 0 t) (receive r t)
unfolding receive
receive-Runs r t = receive_loop-Runs (fuel t) r (with_noise 0 t) (omega arith)
