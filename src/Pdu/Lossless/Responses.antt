-- ===== src/Pdu/Lossless/Responses.antt =====
-- deserialize and then serialize, for the response classes and the exception response.
use pyomb.Prelude.{ℕ, ◌+◌, ◌≡◌, ◌<◌, sym, subst, ◌∷◌, arith, length, All}
use pyomb.Errors.{ok}
use pyomb.Struct.{Bytes, IsByte}
use pyomb.Pdu.Error
use pyomb.Pdu.Packet
use pyomb.Pdu.Packet.{Packet}
use pyomb.Pdu.Classes
use pyomb.Pdu.Classes.{PduClass, class_of, pdu_id, is_request}
use pyomb.Pdu.Bits.ResponseFc1
use pyomb.Pdu.Bits.ResponseFc2
use pyomb.Pdu.Bits.ResponseFc5
use pyomb.Pdu.Bits.ResponseFc15
use pyomb.Pdu.Diagnostics.ResponseFc7
use pyomb.Pdu.Diagnostics.ResponseFc8
use pyomb.Pdu.Encapsulated.ResponseFc43
use pyomb.Pdu.Registers.ResponseFc3
use pyomb.Pdu.Registers.ResponseFc4
use pyomb.Pdu.Registers.ResponseFc6
use pyomb.Pdu.Registers.ResponseFc16
use pyomb.Pdu.Registers.ResponseFc22
use pyomb.Pdu.Registers.ResponseFc23
use mathlib.Core.Path.{subst₂}
use pyomb.Pdu.Lossless.Requests.{rebuild_generic, as_packet_inv}

-- The byte count of the two coil responses is the number of their status bytes. No other class
-- serializes by its count.
abbrev pub Counted : Packet → Type 0
Counted (Packet.response_fc1 p) = p.byte_count ≡ length p.output_status
Counted (Packet.response_fc2 p) = p.byte_count ≡ length p.input_status
Counted _ = Unit

module _ (b : ℕ) (t : Bytes) (p : Packet) (bytes : All IsByte (b ∷ t)) where
  pub rebuild_error :
      Classes.deserialize PduClass.error (b ∷ t) ≡ ok p → Packet.serialize p ≡ ok (b ∷ t)
  unfolding Classes.deserialize Packet.serialize
  rebuild_error h =
      let (q, e, eq) = as_packet_inv Packet.error (Error.deserialize (b ∷ t)) p h in
      subst (λ u. Packet.serialize u ≡ ok (b ∷ t)) eq (Error.rebuilds (b ∷ t) q bytes e)

  -- A class that a response's first byte selects.
  pub rebuild_response :
      (c : PduClass)
      → b < 0x80
      → pdu_id c ≡ b + 0x8000
      → Counted p
      → Classes.deserialize c (b ∷ t) ≡ ok p
      → Packet.serialize p ≡ ok (b ∷ t)
  unfolding Classes.deserialize Packet.serialize pdu_id
  rebuild_response PduClass.generic small id counted h = rebuild_generic b t p bytes h
  rebuild_response PduClass.error small id counted h = rebuild_error h
  rebuild_response PduClass.request_fc1 small id counted h = absurd (omega arith)
  rebuild_response PduClass.response_fc1 small id counted h =
      let (q, e, eq) = as_packet_inv Packet.response_fc1 (ResponseFc1.deserialize (b ∷ t)) p h in
      let code : ◌≡◌ {A = ℕ} 1 b = omega arith in
      subst₂ (λ u k. Packet.serialize u ≡ ok (k ∷ t)) eq code
        (ResponseFc1.rebuilds_counted (b ∷ t) q bytes (subst Counted (sym eq) counted) e)
  rebuild_response PduClass.request_fc2 small id counted h = absurd (omega arith)
  rebuild_response PduClass.response_fc2 small id counted h =
      let (q, e, eq) = as_packet_inv Packet.response_fc2 (ResponseFc2.deserialize (b ∷ t)) p h in
      let code : ◌≡◌ {A = ℕ} 2 b = omega arith in
      subst₂ (λ u k. Packet.serialize u ≡ ok (k ∷ t)) eq code
        (ResponseFc2.rebuilds_counted (b ∷ t) q bytes (subst Counted (sym eq) counted) e)
  rebuild_response PduClass.request_fc5 small id counted h = absurd (omega arith)
  rebuild_response PduClass.response_fc5 small id counted h =
      let (q, e, eq) = as_packet_inv Packet.response_fc5 (ResponseFc5.deserialize (b ∷ t)) p h in
      let code : ◌≡◌ {A = ℕ} 5 b = omega arith in
      subst₂ (λ u k. Packet.serialize u ≡ ok (k ∷ t)) eq code
        (ResponseFc5.lossless.rebuilds (b ∷ t) q bytes e)
  rebuild_response PduClass.request_fc15 small id counted h = absurd (omega arith)
  rebuild_response PduClass.response_fc15 small id counted h =
      let (q, e, eq) = as_packet_inv Packet.response_fc15 (ResponseFc15.deserialize (b ∷ t)) p h in
      let code : ◌≡◌ {A = ℕ} 15 b = omega arith in
      subst₂ (λ u k. Packet.serialize u ≡ ok (k ∷ t)) eq code
        (ResponseFc15.lossless.rebuilds (b ∷ t) q bytes e)
  rebuild_response PduClass.request_fc7 small id counted h = absurd (omega arith)
  rebuild_response PduClass.response_fc7 small id counted h =
      let (q, e, eq) = as_packet_inv Packet.response_fc7 (ResponseFc7.deserialize (b ∷ t)) p h in
      let code : ◌≡◌ {A = ℕ} 7 b = omega arith in
      subst₂ (λ u k. Packet.serialize u ≡ ok (k ∷ t)) eq code
        (ResponseFc7.lossless.rebuilds (b ∷ t) q bytes e)
  rebuild_response PduClass.request_fc8 small id counted h = absurd (omega arith)
  rebuild_response PduClass.response_fc8 small id counted h =
      let (q, e, eq) = as_packet_inv Packet.response_fc8 (ResponseFc8.deserialize (b ∷ t)) p h in
      let code : ◌≡◌ {A = ℕ} 8 b = omega arith in
      subst₂ (λ u k. Packet.serialize u ≡ ok (k ∷ t)) eq code
        (ResponseFc8.lossless.rebuilds (b ∷ t) q bytes e)
  rebuild_response PduClass.request_fc43 small id counted h = absurd (omega arith)
  rebuild_response PduClass.response_fc43 small id counted h =
      let (q, e, eq) = as_packet_inv Packet.response_fc43 (ResponseFc43.deserialize (b ∷ t)) p h in
      let code : ◌≡◌ {A = ℕ} 43 b = omega arith in
      subst₂ (λ u k. Packet.serialize u ≡ ok (k ∷ t)) eq code
        (ResponseFc43.lossless.rebuilds (b ∷ t) q bytes e)
  rebuild_response PduClass.request_fc3 small id counted h = absurd (omega arith)
  rebuild_response PduClass.response_fc3 small id counted h =
      let (q, e, eq) = as_packet_inv Packet.response_fc3 (ResponseFc3.deserialize (b ∷ t)) p h in
      let code : ◌≡◌ {A = ℕ} 3 b = omega arith in
      subst₂ (λ u k. Packet.serialize u ≡ ok (k ∷ t)) eq code
        (ResponseFc3.lossless.rebuilds (b ∷ t) q bytes e)
  rebuild_response PduClass.request_fc4 small id counted h = absurd (omega arith)
  rebuild_response PduClass.response_fc4 small id counted h =
      let (q, e, eq) = as_packet_inv Packet.response_fc4 (ResponseFc4.deserialize (b ∷ t)) p h in
      let code : ◌≡◌ {A = ℕ} 4 b = omega arith in
      subst₂ (λ u k. Packet.serialize u ≡ ok (k ∷ t)) eq code
        (ResponseFc4.lossless.rebuilds (b ∷ t) q bytes e)
  rebuild_response PduClass.request_fc6 small id counted h = absurd (omega arith)
  rebuild_response PduClass.response_fc6 small id counted h =
      let (q, e, eq) = as_packet_inv Packet.response_fc6 (ResponseFc6.deserialize (b ∷ t)) p h in
      let code : ◌≡◌ {A = ℕ} 6 b = omega arith in
      subst₂ (λ u k. Packet.serialize u ≡ ok (k ∷ t)) eq code
        (ResponseFc6.lossless.rebuilds (b ∷ t) q bytes e)
  rebuild_response PduClass.request_fc16 small id counted h = absurd (omega arith)
  rebuild_response PduClass.response_fc16 small id counted h =
      let (q, e, eq) = as_packet_inv Packet.response_fc16 (ResponseFc16.deserialize (b ∷ t)) p h in
      let code : ◌≡◌ {A = ℕ} 16 b = omega arith in
      subst₂ (λ u k. Packet.serialize u ≡ ok (k ∷ t)) eq code
        (ResponseFc16.lossless.rebuilds (b ∷ t) q bytes e)
  rebuild_response PduClass.request_fc22 small id counted h = absurd (omega arith)
  rebuild_response PduClass.response_fc22 small id counted h =
      let (q, e, eq) = as_packet_inv Packet.response_fc22 (ResponseFc22.deserialize (b ∷ t)) p h in
      let code : ◌≡◌ {A = ℕ} 22 b = omega arith in
      subst₂ (λ u k. Packet.serialize u ≡ ok (k ∷ t)) eq code
        (ResponseFc22.lossless.rebuilds (b ∷ t) q bytes e)
  rebuild_response PduClass.request_fc23 small id counted h = absurd (omega arith)
  rebuild_response PduClass.response_fc23 small id counted h =
      let (q, e, eq) = as_packet_inv Packet.response_fc23 (ResponseFc23.deserialize (b ∷ t)) p h in
      let code : ◌≡◌ {A = ℕ} 23 b = omega arith in
      subst₂ (λ u k. Packet.serialize u ≡ ok (k ∷ t)) eq code
        (ResponseFc23.lossless.rebuilds (b ∷ t) q bytes e)
