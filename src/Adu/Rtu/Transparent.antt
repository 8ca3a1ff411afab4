-- ===== src/Adu/Rtu/Transparent.antt =====
-- ModbusRtuPacket of adu/rtu.py, which a component that forwards frames reads and writes.
use pyomb.Prelude.{
  ℕ, ◌+◌, ◌-◌, ◌*◌, ◌/◌, ◌%◌, ◌<◌, ◌≤◌, ◌≡◌, refl, sym, ap, subst, ◌∙◌, [], ◌∷◌, ◌++◌, arith,
  length, drop, All, true, lt→ltb, All-drop, All-take, length-take,
}
use pyomb.Errors.{Result, ok, >>=-eq-ok, catch_struct-eq-ok, catch_packet-eq-ok, ◌>>=◌}
use pyomb.Struct.{Bytes, IsByte, IsWord, pack, unpack}
use pyomb.Pdu.Generic
use pyomb.Pdu.Packet
use pyomb.Pdu.Packet.{Packet}
use pyomb.Pdu.Classes
use pyomb.Pdu.Classes.{PduClass}
use pyomb.Pdu.Parser.{first_code}
use pyomb.Adu.Crc.{calc_crc16, validate_crc, pack_crc, unpack_crc, tail_bytes, front_bytes}
use pyomb.Adu.Crc.Detects.{calc_crc16-IsWord}
use pyomb.Adu.Crc.Frames.{validate_crc-eq-ok, split_frame, tail-append}
use pyomb.Adu.Rtu.{ModbusRtuPacket, init, serialize, deserialize, deserialize_packet, set_crc}

-- What a successful verified read found.
pub deserialize-eq-ok :
    (parse : Bytes → Result Packet) (s : Bytes) (g : ModbusRtuPacket)
    → deserialize parse true s ≡ ok g
    → (validate_crc s ≡ ok g.crc)
      × (first_code s ≡ ok g.slave_id)
      × (parse (drop 1 (front_bytes s)) ≡ ok g.pdu)
unfolding deserialize set_crc init
deserialize-eq-ok parse s g h =
    let checked = validate_crc s >>= (λ (n : ℕ). ok (tt {0})) in
    let (u, e, body) = >>=-eq-ok checked _ h in
    let (n, v, _) = >>=-eq-ok (validate_crc s) _ e in
    let (_, _, tail) = validate_crc-eq-ok s n v in
    let (id, f, r) =
      >>=-eq-ok (first_code s) _ (catch_struct-eq-ok _ (catch_packet-eq-ok _ body)) in
    let (c, k, r') = >>=-eq-ok (unpack_crc (tail_bytes s)) _ r in
    let (pdu, w, built) = >>=-eq-ok (parse (drop 1 (front_bytes s))) _ r' in
    let same : n ≡ c = cc in
    let eq : record { slave_id = id; pdu = pdu; crc = c } ≡ g = ground arith in
    subst
      (λ k.
        (validate_crc s ≡ ok k.crc)
        × (first_code s ≡ ok k.slave_id)
        × (parse (drop 1 (front_bytes s)) ≡ ok k.pdu))
      eq (v ∙ ap (λ k. ok k) same, f, w)

cons_of : (s : Bytes) → 1 ≤ length s → (x : ℕ) × (t : Bytes) × (s ≡ x ∷ t)
cons_of [] h = absurd (omega arith)
cons_of (x ∷ t) h = (x, t, refl)

low_high :
    (lo hi : ℕ)
    → IsByte lo
    → IsByte hi
    → ((hi * 256 + lo) % 256 ≡ lo) × ((hi * 256 + lo) / 256 ≡ hi)
low_high lo hi h k = (omega arith, omega arith)

join :
    (f s u : Bytes) (x lo hi n : ℕ)
    → f ≡ x ∷ u
    → f ++ lo ∷ hi ∷ [] ≡ s
    → n % 256 ≡ lo
    → n / 256 ≡ hi
    → (x ∷ u) ++ n % 256 ∷ n / 256 ∷ [] ≡ s
join f s u x lo hi n c e l h = rw (l, h) (subst (λ (g : Bytes). g ++ lo ∷ hi ∷ [] ≡ s) c e)

-- What `serialize` writes of a packet whose checksum is already right.
serialize-frame :
    (g : ModbusRtuPacket) (u : Bytes)
    → g.slave_id < 256
    → Packet.serialize g.pdu ≡ ok u
    → g.crc ≡ calc_crc16 (g.slave_id ∷ u)
    → IsWord g.crc
    → serialize g ≡ ok ((g.slave_id ∷ u) ++ g.crc % 256 ∷ g.crc / 256 ∷ [], g)
unfolding serialize pack pack_crc set_crc
serialize-frame g u byte h sum word =
    rw (lt→ltb g.slave_id 256 byte, h, sym sum, lt→ltb g.crc 65536 word) refl

-- A frame that verifies is its slave id, the bytes of its PDU and the checksum of both.
pub verified_frame :
    (s : Bytes) (n : ℕ)
    → All IsByte s
    → validate_crc s ≡ ok n
    → (slave_id : ℕ) × (u : Bytes) × (front_bytes s ≡ slave_id ∷ u)
      × (n ≡ calc_crc16 (slave_id ∷ u))
      × ((slave_id ∷ u) ++ n % 256 ∷ n / 256 ∷ [] ≡ s)
unfolding unpack_crc
verified_frame s n bytes v =
    let (long, sum, tail) = validate_crc-eq-ok s n v in
    let (lo, hi, e) = split_frame s (omega arith) in
    let (x, u, c) = cons_of (front_bytes s) (omega (arith, length-take (length s - 2) s)) in
    let at : tail_bytes s ≡ lo ∷ hi ∷ [] =
      subst (λ (t : Bytes). tail_bytes t ≡ lo ∷ hi ∷ []) e (tail-append (front_bytes s) lo hi) in
    let b = subst (All IsByte) at (All-drop IsByte (length s - 2) s bytes) in
    let value : hi * 256 + lo ≡ n = let k = rw at at tail in ground arith in
    let (l, h) = low_high lo hi b.0 b.1.0 in
    let lo' : n % 256 ≡ lo = ap (λ k. k % 256) (sym value) ∙ l in
    let hi' : n / 256 ≡ hi = ap (λ k. k / 256) (sym value) ∙ h in
    (x, u, c, sum ∙ ap calc_crc16 c, join _ s u x lo hi n c e lo' hi')

pub rebuild_generic :
    (u : Bytes) (p : Packet)
    → All IsByte u
    → Classes.deserialize PduClass.generic u ≡ ok p
    → Packet.serialize p ≡ ok u
unfolding Classes.deserialize Packet.serialize
rebuild_generic u p bytes h =
    let (q, d, e) = >>=-eq-ok (Generic.deserialize u) (λ q. ok (Packet.generic q)) h in
    let same : Packet.generic q ≡ p = ground arith in
    subst (λ k. Packet.serialize k ≡ ok u) same (Generic.rebuilds u q bytes d)

-- A byte string that ModbusRtuPacket reads with the checksum verified is what the packet serializes
-- to, and serializing leaves the packet as it is.
pub serialize-deserialize_packet :
    (s : Bytes) (g : ModbusRtuPacket)
    → All IsByte s
    → deserialize_packet true s ≡ ok g
    → serialize g ≡ ok (s, g)
unfolding first_code unpack Classes.deserialize Packet.serialize
serialize-deserialize_packet s g bytes h =
    let (v, id, parsed) = deserialize-eq-ok (Classes.deserialize PduClass.generic) s g h in
    let (x, u, c, sum, whole) = verified_frame s g.crc bytes v in
    let front : All IsByte (x ∷ u) =
      subst (All IsByte) c (All-take IsByte (length s - 2) s bytes) in
    let first : first_code s ≡ ok x = subst (λ (t : Bytes). first_code t ≡ ok x) whole refl in
    let same : x ≡ g.slave_id = cc in
    let rest : drop 1 (front_bytes s) ≡ u = ap (drop 1) c in
    let body : Packet.serialize g.pdu ≡ ok u =
      rebuild_generic u g.pdu front.1
        (subst (λ (t : Bytes). Classes.deserialize PduClass.generic t ≡ ok g.pdu) rest parsed) in
    let sum' = sum ∙ ap (λ y. calc_crc16 (y ∷ u)) same in
    let word : IsWord g.crc = subst IsWord (sym sum) (calc_crc16-IsWord (x ∷ u) front) in
    let byte : g.slave_id < 256 = subst IsByte same front.0 in
    serialize-frame g u byte body sum' word
    ∙ ap (λ (t : Bytes). ok (t, g))
        (ap (λ (y : ℕ). (y ∷ u) ++ g.crc % 256 ∷ g.crc / 256 ∷ []) (sym same) ∙ whole)
