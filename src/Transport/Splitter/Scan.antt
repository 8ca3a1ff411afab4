-- ===== src/Transport/Splitter/Scan.antt =====
-- ModbusRtuSplitter of transport/rtu.py as a relation: the turns from one state to the state in
-- which it waits, with the frames found.
use pyomb.Prelude.{
  ℕ, zero, suc, ◌<◌, ◌≡◌, refl, ap₂, subst, true, false, Option, none, some, List, [], ◌∷◌, ◌++◌,
  arith, length, drop, ltb, Bool-cases, inl, inr, drop-append, length-drop, append_assoc,
}
use pyomb.Struct.{Bytes}
use pyomb.Pdu.Parser.{Registry}
use pyomb.Adu.Rtu.{ModbusRtuPacket}
use pyomb.Transport.Rtu.Reads.{
  read_rtu_frame-Framed, read_rtu_frame-append, read_rtu_frame-long, read_rtu_frame-short,
}
use pyomb.Transport.Splitter.{
  ModbusRtuSplitter, extend, consume, discard, read, take_turn, take_frame, collect, push_loop,
  push,
}

pub data Scan (r : Registry)
    : ModbusRtuSplitter → List ModbusRtuPacket → ModbusRtuSplitter → Type 0 where
  quiet :
      (t : ModbusRtuSplitter)
      → (read r t).packet ≡ none
      → (read r t).incomplete ≡ true
      → Scan r t [] t
  found :
      (t u : ModbusRtuSplitter) (p : ModbusRtuPacket) (fs : List ModbusRtuPacket)
      → (read r t).packet ≡ some p
      → Scan r (consume (read r t).length t) fs u
      → Scan r t (p ∷ fs) u
  noise :
      (t u : ModbusRtuSplitter) (fs : List ModbusRtuPacket)
      → (read r t).packet ≡ none
      → (read r t).incomplete ≡ false
      → Scan r (discard t) fs u
      → Scan r t fs u

-- Two parts, scanned one after the other, are scanned as one.
pub Scan-extend :
    (r : Registry) (more : Bytes) (t u w : ModbusRtuSplitter) (fs gs : List ModbusRtuPacket)
    → Scan r t fs u
    → Scan r (extend more u) gs w
    → Scan r (extend more t) (fs ++ gs) w
Scan-extend r more _ _ w _ gs (quiet t h k) next = next
Scan-extend r more _ _ w _ gs (found t u p fs h s) next =
    let f = read_rtu_frame-Framed r t.buffer t.side p h in
    let same = read_rtu_frame-append r t.buffer more t.side f.complete in
    let cut = drop-append (read r t).length t.buffer more f.held in
    found (extend more t) w p (fs ++ gs) (rw same h)
      (rw (same, cut) (Scan-extend r more _ u w fs gs s next))
Scan-extend r more _ _ w _ gs (noise t u fs h k s) next =
    let same = read_rtu_frame-append r t.buffer more t.side k in
    let cut =
      drop-append 1 t.buffer more (omega (arith, read_rtu_frame-long r t.buffer t.side k)) in
    noise (extend more t) w (fs ++ gs) (rw same h) (rw same k)
      (rw cut (Scan-extend r more _ u w fs gs s next))

-- The outcome of a scan is one.
pub Scan-unique :
    (r : Registry) (t u w : ModbusRtuSplitter) (fs gs : List ModbusRtuPacket)
    → Scan r t fs u
    → Scan r t gs w
    → (fs ≡ gs) × (u ≡ w)
Scan-unique r _ _ _ _ _ (quiet t h k) (quiet _ h' k') = (refl, refl)
Scan-unique r _ _ _ _ _ (quiet t h k) (found _ w p gs h' s) = cc
Scan-unique r _ _ _ _ _ (quiet t h k) (noise _ w gs h' k' s) = cc
Scan-unique r _ _ _ _ _ (found t u p fs h s) (quiet _ h' k') = cc
Scan-unique r _ _ _ _ _ (found t u p fs h s) (found _ w q gs h' s') =
    let (e, f) = Scan-unique r _ u w fs gs s s' in
    let same : p ≡ q = ground arith in (ap₂ (λ a b. a ∷ b) same e, f)
Scan-unique r _ _ _ _ _ (found t u p fs h s) (noise _ w gs h' k' s') = cc
Scan-unique r _ _ _ _ _ (noise t u fs h k s) (quiet _ h' k') = cc
Scan-unique r _ _ _ _ _ (noise t u fs h k s) (found _ w p gs h' s') = cc
Scan-unique r _ _ _ _ _ (noise t u fs h k s) (noise _ w gs h' k' s') =
    Scan-unique r _ u w fs gs s s'

-- What one call of `_take` does: it waits in a state that it reached over noise, or it finds a frame.
-- Either way a scan from where it stopped is a scan from where it started.
pub data Taken (r : Registry) (t : ModbusRtuSplitter)
    : Option ModbusRtuPacket × ModbusRtuSplitter → Type 0 where
  waited : (u : ModbusRtuSplitter) → Scan r t [] u → Taken r t (none, u)
  took :
      (u : ModbusRtuSplitter) (p : ModbusRtuPacket)
      → length u.buffer < length t.buffer
      → ((w : ModbusRtuSplitter) (fs : List ModbusRtuPacket) → Scan r u fs w → Scan r t (p ∷ fs) w)
      → Taken r t (some p, u)

-- A byte of noise in front changes nothing.
Taken-noise :
    (r : Registry) (t : ModbusRtuSplitter) (o : Option ModbusRtuPacket × ModbusRtuSplitter)
    → (read r t).packet ≡ none
    → (read r t).incomplete ≡ false
    → Taken r (discard t) o
    → Taken r t o
Taken-noise r t _ h k (waited u s) = waited u (noise t u [] h k s)
Taken-noise r t _ h k (took u p less s) =
    took u p (omega (arith, length-drop 1 t.buffer))
      (λ w fs next. noise t w (p ∷ fs) h k (s w fs next))

take_turn-Taken :
    (r : Registry) (t : ModbusRtuSplitter) (o : Option ModbusRtuPacket)
    (rest : Option ModbusRtuPacket × ModbusRtuSplitter)
    → (read r t).packet ≡ o
    → ((read r t).incomplete ≡ false → Taken r (discard t) rest)
    → Taken r t (take_turn o (read r t) t rest)
unfolding take_turn
take_turn-Taken r t (some p) rest h next =
    let f = read_rtu_frame-Framed r t.buffer t.side p h in
    took (consume (read r t).length t) p
      (omega (arith, length-drop (read r t).length t.buffer, f.positive, f.held))
      (λ w fs s. found t w p fs h s)
take_turn-Taken r t none rest h next = elim (Bool-cases (read r t).incomplete) [
  | inl wait ↦ rw wait (waited t (quiet t h wait))
  | inr noisy ↦ rw noisy (Taken-noise r t rest h noisy (next noisy))
]

-- One call of `_take` has fuel enough in the number of bytes held.
pub take_frame-Taken :
    (n : ℕ) (r : Registry) (t : ModbusRtuSplitter)
    → length t.buffer < n
    → Taken r t (take_frame n r t)
unfolding take_frame
take_frame-Taken zero r t fuel = absurd (omega arith)
take_frame-Taken (suc n) r t fuel = elim (Bool-cases (ltb (length t.buffer) 4)) [
  | inl short ↦
      let (h, k) = read_rtu_frame-short r t.buffer t.side short in rw short (waited t (quiet t h k))
  | inr long ↦
      let less : length (drop 1 t.buffer) < n = ground (arith, length-drop 1 t.buffer) in
      let turn =
        take_turn-Taken r t (read r t).packet (take_frame n r (discard t)) refl
          (λ noisy. take_frame-Taken n r (discard t) less) in
      rw long turn
]

collect-Scan :
    (r : Registry) (t : ModbusRtuSplitter) (o : Option ModbusRtuPacket × ModbusRtuSplitter)
    (rest : List ModbusRtuPacket × ModbusRtuSplitter)
    → Taken r t o
    → (length o.1.buffer < length t.buffer → Scan r o.1 rest.0 rest.1)
    → Scan r t (collect o.0 o.1 rest).0 (collect o.0 o.1 rest).1
unfolding collect
collect-Scan r t _ rest (waited u s) next = s
collect-Scan r t _ rest (took u p less s) next = s rest.1 rest.0 (next less)

push_loop-Scan :
    (n : ℕ) (r : Registry) (t : ModbusRtuSplitter)
    → length t.buffer < n
    → Scan r t (push_loop n r t).0 (push_loop n r t).1
unfolding push_loop
push_loop-Scan zero r t fuel = absurd (omega arith)
push_loop-Scan (suc n) r t fuel =
    let o = take_frame (suc (length t.buffer)) r t in
    collect-Scan r t o (push_loop n r o.1)
      (take_frame-Taken (suc (length t.buffer)) r t (omega arith))
      (λ less. push_loop-Scan n r o.1 (omega arith))

-- The fuel of the two loops is enough: what `push` returns is reached from the extended buffer by
-- finding frames and discarding bytes, one turn after the other, and ends where the reading is
-- incomplete.
pub push-Scan :
    (r : Registry) (stream : Bytes) (t : ModbusRtuSplitter)
    → Scan r (extend stream t) (push r stream t).0 (push r stream t).1
unfolding push
push-Scan r stream t =
    push_loop-Scan (suc (length (t.buffer ++ stream))) r (extend stream t) (omega arith)

-- Under any registry and from any state of a splitter, pushing two byte strings one after the other
-- returns, in order, the frames that pushing their concatenation returns, and leaves the same
-- state.
pub push-append :
    (r : Registry) (a b : Bytes) (t : ModbusRtuSplitter)
    → let first = push r a t in
      let second = push r b first.1 in push r (a ++ b) t ≡ (first.0 ++ second.0, second.1)
push-append r a b t =
    let first = push r a t in
    let second = push r b first.1 in
    let whole =
      Scan-extend r b (extend a t) first.1 second.1 first.0 second.0 (push-Scan r a t)
        (push-Scan r b first.1) in
    let whole' =
      subst
        (λ (buffer : Bytes).
          Scan r (record { side = t.side; buffer = buffer; resyncs = t.resyncs })
            (first.0 ++ second.0) second.1)
        (append_assoc t.buffer a b) whole in
    let (e, f) = Scan-unique r (extend (a ++ b) t) _ _ _ _ (push-Scan r (a ++ b) t) whole' in
    ap₂ (λ fs u. (fs, u)) e f
