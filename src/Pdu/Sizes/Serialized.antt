-- ===== src/Pdu/Sizes/Serialized.antt =====
-- `expected_size` of pdu/common.py and pdu/diagnostics.py, on what a packet serialized to.
use pyomb.Prelude.{
  ℕ, suc, ◌+◌, ◌-◌, ◌*◌, ◌/◌, ◌%◌, ◌≡◌, ◌≢◌, refl, ap, subst, ◌∙◌, List, [], ◌∷◌, ◌++◌, arith,
  length, replicate, ltb, ◌==◌, true, false, some,
}
use pyomb.Errors.{ok, catch_struct-eq-ok, catch_packet-eq-ok}
use pyomb.Struct.{Bytes, Code, B, H, Format, width, calcsize, pack}
use pyomb.Pdu.Error
use pyomb.Pdu.Packet
use pyomb.Pdu.Packet.{Packet}
use pyomb.Pdu.Classes.{class_of}
use pyomb.Pdu.Bits.RequestFc1
use pyomb.Pdu.Bits.ResponseFc1
use pyomb.Pdu.Bits.RequestFc2
use pyomb.Pdu.Bits.ResponseFc2
use pyomb.Pdu.Bits.RequestFc5
use pyomb.Pdu.Bits.ResponseFc5
use pyomb.Pdu.Bits.RequestFc15
use pyomb.Pdu.Bits.ResponseFc15
use pyomb.Pdu.Diagnostics.RequestFc7
use pyomb.Pdu.Diagnostics.ResponseFc7
use pyomb.Pdu.Diagnostics.RequestFc8
use pyomb.Pdu.Diagnostics.ResponseFc8
use pyomb.Pdu.Registers.RequestFc3
use pyomb.Pdu.Registers.ResponseFc3
use pyomb.Pdu.Registers.RequestFc4
use pyomb.Pdu.Registers.ResponseFc4
use pyomb.Pdu.Registers.RequestFc6
use pyomb.Pdu.Registers.ResponseFc6
use pyomb.Pdu.Registers.RequestFc16
use pyomb.Pdu.Registers.ResponseFc16
use pyomb.Pdu.Registers.RequestFc22
use pyomb.Pdu.Registers.ResponseFc22
use pyomb.Pdu.Registers.RequestFc23
use pyomb.Pdu.Registers.ResponseFc23
use pyomb.Struct.Laws.{pack_inv, calcsize-append, calcsize-replicate, pack-Packed}
use pyomb.Pdu.Classes.{layout_size, byte_at, expected_size}
use pyomb.Pdu.Diagnostics.SubFunctions.{is_sub_function, size_from_prefix, echo_sub_function}
use pyomb.Pdu.RoundTrip.{length-serialize}
use pyomb.Pdu.Sizes.Stable.{expected_size-append}

-- The count field, the last byte of the head, in the packed bytes.
byte_at-pack :
    (h : Format) (ws : List ℕ) (c : ℕ) (f : Format) (vs : List ℕ) (s : Bytes)
    → length ws ≡ length h
    → pack (h ++ B ∷ f) (ws ++ c ∷ vs) ≡ ok s
    → byte_at s (calcsize h) ≡ c
unfolding byte_at
byte_at-pack [] [] c f vs s e k =
    let (t, _, _, eq) = pack_inv B f c vs s k in subst (λ u. byte_at u 0 ≡ c) eq refl
byte_at-pack [] (w ∷ ws) c f vs s e k = absurd (omega arith)
byte_at-pack (x ∷ h) [] c f vs s e k = absurd (omega arith)
byte_at-pack (B ∷ h) (w ∷ ws) c f vs s e k =
    let (t, _, p, eq) = pack_inv B (h ++ B ∷ f) w (ws ++ c ∷ vs) s k in
    let next : 1 + calcsize h ≡ suc (calcsize h) = omega arith in
    subst (λ u. byte_at u (1 + calcsize h) ≡ c) eq
      (rw next (byte_at-pack h ws c f vs t (omega arith) p))
byte_at-pack (H ∷ h) (w ∷ ws) c f vs s e k =
    let (t, _, p, eq) = pack_inv H (h ++ B ∷ f) w (ws ++ c ∷ vs) s k in
    let next : 2 + calcsize h ≡ suc (suc (calcsize h)) = omega arith in
    subst (λ u. byte_at u (2 + calcsize h) ≡ c) eq
      (rw next (byte_at-pack h ws c f vs t (omega arith) p))

-- A layout whose count agrees with the sequence that follows it.
counted_size :
    (h : Format) (ws : List ℕ) (c : ℕ) (code : Code) (n : ℕ) (vs : List ℕ) (s : Bytes)
    → length ws ≡ length h
    → c ≡ width code * n
    → pack (h ++ B ∷ replicate n code) (ws ++ c ∷ vs) ≡ ok s
    → layout_size (record { head = h ++ B ∷ []; tail = some code; counted = true }) s
      ≡ ok (some (length s))
unfolding layout_size
counted_size h ws c code n vs s e agree k =
    let at = byte_at-pack h ws c (replicate n code) vs s e k in
    let size = (pack-Packed _ _ s k).sized in
    let outer = calcsize-append h (B ∷ []) in
    let whole = calcsize-append h (B ∷ replicate n code) in
    let rest = calcsize-replicate n code in
    let pred : calcsize (h ++ B ∷ []) - 1 ≡ calcsize h = omega arith in
    let held : ltb (length s) (calcsize (h ++ B ∷ [])) ≡ false = ground arith in
    rw (held, pred, at) (ap (λ (k : ℕ). ok (some k)) (omega arith))

sub_size :
    (fc sub n : ℕ) (vs : List ℕ) (s : Bytes)
    → n ≡ 1
    → sub ≢ echo_sub_function
    → is_sub_function sub ≡ true
    → pack (B ∷ H ∷ replicate n H) (fc ∷ sub ∷ vs) ≡ ok s
    → size_from_prefix s ≡ ok (some (length s))
sub_size fc sub n vs s one echo known k =
    let size = (pack-Packed _ _ s k).sized in
    let (t, _, p, eq) = pack_inv B (H ∷ replicate n H) fc (sub ∷ vs) s k in
    let (u, _, _, eq') = pack_inv H (replicate n H) sub vs t p in
    let data_size = calcsize-replicate n H in
    let whole : sub / 256 * 256 + sub % 256 ≡ sub = omega arith in
    let other : (sub == echo_sub_function) ≡ false = ground arith in
    let sized : ◌≡◌ {A = ℕ} 5 (length s) = omega arith in
    subst (λ v. size_from_prefix v ≡ ok (some (length s))) eq
      (subst (λ v. size_from_prefix (fc ∷ v) ≡ ok (some (length s))) eq'
        (unfold size_from_prefix in rw (whole, other, known, sized)))

-- The fields from which a reader can tell the size: a count that is the size of what follows it, and
-- a sub-function of the table, but for the echo, with its one word of data. The generic PDU and the
-- encapsulated interface show no size.
abbrev pub Sizable : Packet → Type 0
Sizable (Packet.generic p) = ⊥
Sizable (Packet.request_fc43 p) = ⊥
Sizable (Packet.response_fc43 p) = ⊥
Sizable (Packet.request_fc8 p) =
    (p.sub_func ≢ echo_sub_function)
    × (is_sub_function p.sub_func ≡ true)
    × (length p.subfunc_data ≡ 1)
Sizable (Packet.response_fc8 p) =
    (p.sub_func ≢ echo_sub_function)
    × (is_sub_function p.sub_func ≡ true)
    × (length p.subfunc_data ≡ 1)
Sizable (Packet.response_fc1 p) = p.byte_count ≡ 1 * length p.output_status
Sizable (Packet.response_fc2 p) = p.byte_count ≡ 1 * length p.input_status
Sizable (Packet.request_fc15 p) = p.byte_count ≡ 1 * length p.values
Sizable (Packet.response_fc3 p) = p.byte_count ≡ 2 * length p.values
Sizable (Packet.response_fc4 p) = p.byte_count ≡ 2 * length p.values
Sizable (Packet.request_fc16 p) = p.byte_count ≡ 2 * length p.values
Sizable (Packet.request_fc23 p) = p.write_byte_count ≡ 2 * length p.write_values
Sizable (Packet.response_fc23 p) = p.byte_count ≡ 2 * length p.values
Sizable _ = Unit

fixed_size : (n : ℕ) (s : Bytes) → length s ≡ n → ok (some n) ≡ ok (some (length s))
fixed_size n s e = cc

pub expected_size-serialize_exact :
    (p : Packet) (s : Bytes)
    → Sizable p
    → Packet.serialize p ≡ ok s
    → expected_size (class_of p) s ≡ ok (some (length s))
unfolding expected_size class_of Packet.serialize Packet.len
expected_size-serialize_exact (Packet.generic p) s z h = absurd z
expected_size-serialize_exact (Packet.error p) s z h =
    fixed_size 2 s (unfold Packet.len Error.len in length-serialize (Packet.error p) s h)
expected_size-serialize_exact (Packet.request_fc1 p) s z h =
    fixed_size 5 s (unfold Packet.len RequestFc1.len in length-serialize (Packet.request_fc1 p) s h)
expected_size-serialize_exact (Packet.response_fc1 p) s z h =
    counted_size (B ∷ []) (1 ∷ []) p.byte_count B p.byte_count p.output_status s refl (omega arith)
      (unfold ResponseFc1.serialize in catch_struct-eq-ok _ (catch_packet-eq-ok _ h))
expected_size-serialize_exact (Packet.request_fc2 p) s z h =
    fixed_size 5 s (unfold Packet.len RequestFc2.len in length-serialize (Packet.request_fc2 p) s h)
expected_size-serialize_exact (Packet.response_fc2 p) s z h =
    counted_size (B ∷ []) (2 ∷ []) p.byte_count B p.byte_count p.input_status s refl (omega arith)
      (unfold ResponseFc2.serialize in catch_struct-eq-ok _ (catch_packet-eq-ok _ h))
expected_size-serialize_exact (Packet.request_fc5 p) s z h =
    fixed_size 5 s (unfold Packet.len RequestFc5.len in length-serialize (Packet.request_fc5 p) s h)
expected_size-serialize_exact (Packet.response_fc5 p) s z h =
    fixed_size 5 s
      (unfold Packet.len ResponseFc5.len in length-serialize (Packet.response_fc5 p) s h)
expected_size-serialize_exact (Packet.request_fc15 p) s z h =
    counted_size (B ∷ H ∷ H ∷ []) (15 ∷ p.start_addr ∷ p.quantity ∷ []) p.byte_count B
      (length p.values) p.values s refl z
      (unfold RequestFc15.serialize in catch_struct-eq-ok _ (catch_packet-eq-ok _ h))
expected_size-serialize_exact (Packet.response_fc15 p) s z h =
    fixed_size 5 s
      (unfold Packet.len ResponseFc15.len in length-serialize (Packet.response_fc15 p) s h)
expected_size-serialize_exact (Packet.request_fc7 p) s z h =
    fixed_size 1 s (unfold Packet.len RequestFc7.len in length-serialize (Packet.request_fc7 p) s h)
expected_size-serialize_exact (Packet.response_fc7 p) s z h =
    fixed_size 2 s
      (unfold Packet.len ResponseFc7.len in length-serialize (Packet.response_fc7 p) s h)
expected_size-serialize_exact (Packet.request_fc8 p) s z h =
    sub_size 8 p.sub_func (length p.subfunc_data) p.subfunc_data s z.2 z.0 z.1
      (unfold RequestFc8.serialize in catch_struct-eq-ok _ (catch_packet-eq-ok _ h))
expected_size-serialize_exact (Packet.response_fc8 p) s z h =
    sub_size 8 p.sub_func (length p.subfunc_data) p.subfunc_data s z.2 z.0 z.1
      (unfold ResponseFc8.serialize in catch_struct-eq-ok _ (catch_packet-eq-ok _ h))
expected_size-serialize_exact (Packet.request_fc43 p) s z h = absurd z
expected_size-serialize_exact (Packet.response_fc43 p) s z h = absurd z
expected_size-serialize_exact (Packet.request_fc3 p) s z h =
    fixed_size 5 s (unfold Packet.len RequestFc3.len in length-serialize (Packet.request_fc3 p) s h)
expected_size-serialize_exact (Packet.response_fc3 p) s z h =
    counted_size (B ∷ []) (3 ∷ []) p.byte_count H (length p.values) p.values s refl z
      (unfold ResponseFc3.serialize in catch_struct-eq-ok _ (catch_packet-eq-ok _ h))
expected_size-serialize_exact (Packet.request_fc4 p) s z h =
    fixed_size 5 s (unfold Packet.len RequestFc4.len in length-serialize (Packet.request_fc4 p) s h)
expected_size-serialize_exact (Packet.response_fc4 p) s z h =
    counted_size (B ∷ []) (4 ∷ []) p.byte_count H (length p.values) p.values s refl z
      (unfold ResponseFc4.serialize in catch_struct-eq-ok _ (catch_packet-eq-ok _ h))
expected_size-serialize_exact (Packet.request_fc6 p) s z h =
    fixed_size 5 s (unfold Packet.len RequestFc6.len in length-serialize (Packet.request_fc6 p) s h)
expected_size-serialize_exact (Packet.response_fc6 p) s z h =
    fixed_size 5 s
      (unfold Packet.len ResponseFc6.len in length-serialize (Packet.response_fc6 p) s h)
expected_size-serialize_exact (Packet.request_fc16 p) s z h =
    counted_size (B ∷ H ∷ H ∷ []) (16 ∷ p.start_addr ∷ p.quantity ∷ []) p.byte_count H
      (length p.values) p.values s refl z
      (unfold RequestFc16.serialize in catch_struct-eq-ok _ (catch_packet-eq-ok _ h))
expected_size-serialize_exact (Packet.response_fc16 p) s z h =
    fixed_size 5 s
      (unfold Packet.len ResponseFc16.len in length-serialize (Packet.response_fc16 p) s h)
expected_size-serialize_exact (Packet.request_fc22 p) s z h =
    fixed_size 7 s
      (unfold Packet.len RequestFc22.len in length-serialize (Packet.request_fc22 p) s h)
expected_size-serialize_exact (Packet.response_fc22 p) s z h =
    fixed_size 7 s
      (unfold Packet.len ResponseFc22.len in length-serialize (Packet.response_fc22 p) s h)
expected_size-serialize_exact (Packet.request_fc23 p) s z h =
    counted_size (B ∷ H ∷ H ∷ H ∷ H ∷ [])
      (23 ∷ p.read_start_addr ∷ p.read_quantity ∷ p.write_start_addr ∷ p.write_quantity ∷ [])
      p.write_byte_count H (length p.write_values) p.write_values s refl z
      (unfold RequestFc23.serialize in catch_struct-eq-ok _ (catch_packet-eq-ok _ h))
expected_size-serialize_exact (Packet.response_fc23 p) s z h =
    counted_size (B ∷ []) (23 ∷ []) p.byte_count H (length p.values) p.values s refl z
      (unfold ResponseFc23.serialize in catch_struct-eq-ok _ (catch_packet-eq-ok _ h))

-- A packet whose size can be told from its fields serializes to bytes from which, whatever follows
-- them, its class computes the number of those bytes.
pub expected_size-serialize :
    (p : Packet) (s more : Bytes)
    → Sizable p
    → Packet.serialize p ≡ ok s
    → expected_size (class_of p) (s ++ more) ≡ ok (some (length s))
expected_size-serialize p s more z h =
    let e = expected_size-serialize_exact p s z h in
    expected_size-append (class_of p) s more (λ k. cc) ∙ e
