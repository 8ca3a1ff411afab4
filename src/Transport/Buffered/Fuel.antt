-- ===== src/Transport/Buffered/Fuel.antt =====
-- The loop of ModbusTcpReceiver.run_once, transport/stream.py, with fuel and without.
use pyomb.Prelude.{
  ℕ, zero, suc, ◌+◌, ◌≤◌, ◌<◌, ◌≡◌, refl, sym, ap, subst, ◌∙◌, ◌⊎◌, Bool, true, false, Option, none,
  some, List, [], ◌∷◌, ◌++◌, arith, length, take, leb, Bool-cases, inl, inr, length-drop,
}
use pyomb.Errors.{Result, ok, err, Error}
use pyomb.Struct.{Bytes}
use pyomb.Adu.Header
use pyomb.Adu.Tcp.{ModbusTcpPacket, deserialize_packet}
use pyomb.Transport.Socket.{Inbox, State, held, stop, view}
use pyomb.Transport.TcpStream
use pyomb.Transport.TcpStream.Reads.{seen}
use pyomb.Transport.TcpStream.Refines.{receive-receives}
use pyomb.Transport.TcpStream.Contract.{receives, frame, lost, no_frame, declared}
use pyomb.Transport.Buffered.{collect, receive_packets, Collected}

lost-raises : (q : Option Inbox) (s : Bytes) (v : State) → lost q ≡ (ok s, v) → ⊥
unfolding lost
lost-raises none s v e = let bad = ap (λ w. w.0) e in cc
lost-raises (some q) s v e = let bad = ap (λ w. w.0) e in cc

frame-shrinks :
    (r : Result ℕ) (s m : Bytes) (q : Option Inbox) (v : State)
    → 7 ≤ length s
    → frame r (s, q) ≡ (ok m, v)
    → length v.0 < length s
unfolding frame
frame-shrinks (err x) s m q v h e = absurd (let bad = ap (λ w. w.0) e in cc)
frame-shrinks (ok n) s m q v h e = elim (Bool-cases (leb (Header.size + n) (length s))) [
  | inl enough ↦
      let left = ap (λ w. length w.1.0) (rw enough at e) in
      omega (arith, left, length-drop (Header.size + n) s)
  | inr lacks ↦ absurd (lost-raises q m v (rw lacks at e))
]

no_frame-empty :
    (s t : Bytes) (b : ℕ) (q : Option Inbox) (v : State) → no_frame (s, q) ≡ (ok (b ∷ t), v) → ⊥
unfolding no_frame
no_frame-empty [] t b none v e = let bad = ap (λ w. w.0) e in cc
no_frame-empty [] t b (some q) v e = lost-raises (some q) (b ∷ t) v e
no_frame-empty (x ∷ s) t b q v e = lost-raises q (b ∷ t) v e

receives-shrinks :
    (s t : Bytes) (b : ℕ) (q : Option Inbox) (v : State)
    → receives (s, q) ≡ (ok (b ∷ t), v)
    → length v.0 < length s
unfolding receives
receives-shrinks s t b q v e = elim (Bool-cases (leb Header.size (length s))) [
  | inl enough ↦
      frame-shrinks (declared (take Header.size s)) s (b ∷ t) q v (ground arith) (rw enough at e)
  | inr lacks ↦ absurd (no_frame-empty s t b q v (rw lacks at e))
]

-- The loop of `run_once` without fuel, from a test of its stop event: it is stopped, or a turn gives the
-- outcome whatever follows it, or goes on, whatever follows it, to where the loop comes to the outcome.
pub data Runs (stop : ℕ → Bool) (frag : ℕ)
    : ℕ
      → List ModbusTcpPacket
      → Inbox
      → Result (Unit {0}) × (List ModbusTcpPacket × Inbox)
      → Type 0 where
  stops :
      (n : ℕ) (ps : List ModbusTcpPacket) (q : Inbox)
      → stop n ≡ true
      → Runs stop frag n ps q (ok tt, (ps, q))
  ends :
      (n : ℕ) (ps : List ModbusTcpPacket) (q : Inbox) (o : Collected)
      → stop n ≡ false
      → ((next : List ModbusTcpPacket → Inbox → Collected)
          → collect next ps (TcpStream.receive frag q) ≡ o)
      → Runs stop frag n ps q o
  goes_on :
      (n : ℕ) (ps us : List ModbusTcpPacket) (q r : Inbox) (o : Collected)
      → stop n ≡ false
      → ((next : List ModbusTcpPacket → Inbox → Collected)
          → collect next ps (TcpStream.receive frag q) ≡ next us r)
      → Runs stop frag (suc n) us r o
      → Runs stop frag n ps q o

-- What a turn does with what follows it: nothing, or one go at an inbox that holds less.
collect-turns :
    (ps : List ModbusTcpPacket) (q : Inbox) (x : Result Bytes × Inbox)
    → seen x ≡ receives (view q)
    → ((o : Collected) × ((next : List ModbusTcpPacket → Inbox → Collected)
          → collect next ps x ≡ o))
      ⊎ ((us : List ModbusTcpPacket) × (r : Inbox) × (length (held r) < length (held q))
          × ((next : List ModbusTcpPacket → Inbox → Collected) → collect next ps x ≡ next us r))
unfolding collect
collect-turns ps q (err x, r) e = inl (_, λ next. refl)
collect-turns ps q (ok [], r) e = inl (_, λ next. refl)
collect-turns ps q (ok (b ∷ t), r) e =
    let less = receives-shrinks (held q) t b (stop q) (view r) (sym e) in
    elim (result-cases (deserialize_packet (b ∷ t))) [
      | inl (p, read) ↦ inr (ps ++ (p ∷ []), r, less, λ next. ap (taken next) read)
      | inr (x, bad) ↦ inl ((err x, (ps, r)), λ next. ap (taken next) bad)
    ]
  where
    taken : (List ModbusTcpPacket → Inbox → Collected) → Result ModbusTcpPacket → Collected
    taken next (ok p) = next (ps ++ (p ∷ [])) r
    taken next (err x) = (err x, (ps, r))

    result-cases :
        {A : Type 0} (m : Result A) → ((a : A) × (m ≡ ok a)) ⊎ ((x : Error) × (m ≡ err x))
    result-cases (ok a) = inl (a, refl)
    result-cases (err x) = inr (x, refl)

-- On fuel that is more than the number of bytes held, what the loop gives is what it comes to turn
-- by turn with no fuel, so that it ends, by its stop event, a `break` or an error, whatever the
-- arrivals, the stop event and the packets collected before.
pub receive_packets-Runs :
    (stop : ℕ → Bool) (frag n turn : ℕ) (ps : List ModbusTcpPacket) (q : Inbox)
    → length (held q) < n
    → Runs stop frag turn ps q (receive_packets stop frag n turn ps q)
unfolding receive_packets
receive_packets-Runs stop frag zero turn ps q h = absurd (omega arith)
receive_packets-Runs stop frag (suc n) turn ps q h = elim (Bool-cases (stop turn)) [
  | inl set ↦ rw set (stops turn ps q set)
  | inr clear ↦
      rw clear (elim (collect-turns ps q (TcpStream.receive frag q) (receive-receives frag q)) [
        | inl (o, done) ↦
            ends turn ps q _ clear
              (λ next. done next ∙ sym (done (receive_packets stop frag n (suc turn))))
        | inr (us, r, less, on) ↦ goes_on turn ps us q r _ clear on (
            subst (Runs stop frag (suc turn) us r)
              (sym (on (receive_packets stop frag n (suc turn))))
              (receive_packets-Runs stop frag n (suc turn) us r (omega arith)))
      ])
]
