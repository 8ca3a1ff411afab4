-- ===== src/Pdu/Lossless/Requests.antt =====
-- deserialize and then serialize, for the request classes.
use pyomb.Prelude.{ℕ, ◌≡◌, refl, subst, ◌∷◌, arith, All}
use pyomb.Errors.{Result, ok, err}
use pyomb.Struct.{Bytes, IsByte}
use pyomb.Pdu.Generic
use pyomb.Pdu.Packet
use pyomb.Pdu.Packet.{Packet}
use pyomb.Pdu.Classes
use pyomb.Pdu.Classes.{PduClass, class_of, pdu_id, is_request}
use pyomb.Pdu.Bits.RequestFc1
use pyomb.Pdu.Bits.RequestFc2
use pyomb.Pdu.Bits.RequestFc5
use pyomb.Pdu.Bits.RequestFc15
use pyomb.Pdu.Diagnostics.RequestFc7
use pyomb.Pdu.Diagnostics.RequestFc8
use pyomb.Pdu.Encapsulated.RequestFc43
use pyomb.Pdu.Registers.RequestFc3
use pyomb.Pdu.Registers.RequestFc4
use pyomb.Pdu.Registers.RequestFc6
use pyomb.Pdu.Registers.RequestFc16
use pyomb.Pdu.Registers.RequestFc22
use pyomb.Pdu.Registers.RequestFc23
use mathlib.Core.Path.{subst₂}

pub as_packet_inv :
    {A : Type 0} (f : A → Packet) (r : Result A) (p : Packet)
    → Classes.as_packet f r ≡ ok p
    → (a : A) × (r ≡ ok a) × (f a ≡ p)
as_packet_inv f (ok a) p h = (a, refl, ground arith)
as_packet_inv f (err e) p h = cc

module _ (b : ℕ) (t : Bytes) (p : Packet) (bytes : All IsByte (b ∷ t)) where
  pub rebuild_generic :
      Classes.deserialize PduClass.generic (b ∷ t) ≡ ok p → Packet.serialize p ≡ ok (b ∷ t)
  unfolding Classes.deserialize Packet.serialize
  rebuild_generic h =
      let (q, e, eq) = as_packet_inv Packet.generic (Generic.deserialize (b ∷ t)) p h in
      subst (λ u. Packet.serialize u ≡ ok (b ∷ t)) eq (Generic.rebuilds (b ∷ t) q bytes e)

  -- A class that a request's first byte selects.
  pub rebuild_request :
      (c : PduClass)
      → pdu_id c ≡ b
      → Classes.deserialize c (b ∷ t) ≡ ok p
      → Packet.serialize p ≡ ok (b ∷ t)
  unfolding Classes.deserialize Packet.serialize pdu_id
  rebuild_request PduClass.generic id h = rebuild_generic h
  rebuild_request PduClass.error id h = absurd (omega arith)
  rebuild_request PduClass.request_fc1 id h =
      let (q, e, eq) = as_packet_inv Packet.request_fc1 (RequestFc1.deserialize (b ∷ t)) p h in
      subst₂ (λ u k. Packet.serialize u ≡ ok (k ∷ t)) eq id
        (RequestFc1.lossless.rebuilds (b ∷ t) q bytes e)
  rebuild_request PduClass.response_fc1 id h = absurd (omega arith)
  rebuild_request PduClass.request_fc2 id h =
      let (q, e, eq) = as_packet_inv Packet.request_fc2 (RequestFc2.deserialize (b ∷ t)) p h in
      subst₂ (λ u k. Packet.serialize u ≡ ok (k ∷ t)) eq id
        (RequestFc2.lossless.rebuilds (b ∷ t) q bytes e)
  rebuild_request PduClass.response_fc2 id h = absurd (omega arith)
  rebuild_request PduClass.request_fc5 id h =
      let (q, e, eq) = as_packet_inv Packet.request_fc5 (RequestFc5.deserialize (b ∷ t)) p h in
      subst₂ (λ u k. Packet.serialize u ≡ ok (k ∷ t)) eq id
        (RequestFc5.lossless.rebuilds (b ∷ t) q bytes e)
  rebuild_request PduClass.response_fc5 id h = absurd (omega arith)
  rebuild_request PduClass.request_fc15 id h =
      let (q, e, eq) = as_packet_inv Packet.request_fc15 (RequestFc15.deserialize (b ∷ t)) p h in
      subst₂ (λ u k. Packet.serialize u ≡ ok (k ∷ t)) eq id
        (RequestFc15.lossless.rebuilds (b ∷ t) q bytes e)
  rebuild_request PduClass.response_fc15 id h = absurd (omega arith)
  rebuild_request PduClass.request_fc7 id h =
      let (q, e, eq) = as_packet_inv Packet.request_fc7 (RequestFc7.deserialize (b ∷ t)) p h in
      subst₂ (λ u k. Packet.serialize u ≡ ok (k ∷ t)) eq id
        (RequestFc7.lossless.rebuilds (b ∷ t) q bytes e)
  rebuild_request PduClass.response_fc7 id h = absurd (omega arith)
  rebuild_request PduClass.request_fc8 id h =
      let (q, e, eq) = as_packet_inv Packet.request_fc8 (RequestFc8.deserialize (b ∷ t)) p h in
      subst₂ (λ u k. Packet.serialize u ≡ ok (k ∷ t)) eq id
        (RequestFc8.lossless.rebuilds (b ∷ t) q bytes e)
  rebuild_request PduClass.response_fc8 id h = absurd (omega arith)
  rebuild_request PduClass.request_fc43 id h =
      let (q, e, eq) = as_packet_inv Packet.request_fc43 (RequestFc43.deserialize (b ∷ t)) p h in
      subst₂ (λ u k. Packet.serialize u ≡ ok (k ∷ t)) eq id
        (RequestFc43.lossless.rebuilds (b ∷ t) q bytes e)
  rebuild_request PduClass.response_fc43 id h = absurd (omega arith)
  rebuild_request PduClass.request_fc3 id h =
      let (q, e, eq) = as_packet_inv Packet.request_fc3 (RequestFc3.deserialize (b ∷ t)) p h in
      subst₂ (λ u k. Packet.serialize u ≡ ok (k ∷ t)) eq id
        (RequestFc3.lossless.rebuilds (b ∷ t) q bytes e)
  rebuild_request PduClass.response_fc3 id h = absurd (omega arith)
  rebuild_request PduClass.request_fc4 id h =
      let (q, e, eq) = as_packet_inv Packet.request_fc4 (RequestFc4.deserialize (b ∷ t)) p h in
      subst₂ (λ u k. Packet.serialize u ≡ ok (k ∷ t)) eq id
        (RequestFc4.lossless.rebuilds (b ∷ t) q bytes e)
  rebuild_request PduClass.response_fc4 id h = absurd (omega arith)
  rebuild_request PduClass.request_fc6 id h =
      let (q, e, eq) = as_packet_inv Packet.request_fc6 (RequestFc6.deserialize (b ∷ t)) p h in
      subst₂ (λ u k. Packet.serialize u ≡ ok (k ∷ t)) eq id
        (RequestFc6.lossless.rebuilds (b ∷ t) q bytes e)
  rebuild_request PduClass.response_fc6 id h = absurd (omega arith)
  rebuild_request PduClass.request_fc16 id h =
      let (q, e, eq) = as_packet_inv Packet.request_fc16 (RequestFc16.deserialize (b ∷ t)) p h in
      subst₂ (λ u k. Packet.serialize u ≡ ok (k ∷ t)) eq id
        (RequestFc16.lossless.rebuilds (b ∷ t) q bytes e)
  rebuild_request PduClass.response_fc16 id h = absurd (omega arith)
  rebuild_request PduClass.request_fc22 id h =
      let (q, e, eq) = as_packet_inv Packet.request_fc22 (RequestFc22.deserialize (b ∷ t)) p h in
      subst₂ (λ u k. Packet.serialize u ≡ ok (k ∷ t)) eq id
        (RequestFc22.lossless.rebuilds (b ∷ t) q bytes e)
  rebuild_request PduClass.response_fc22 id h = absurd (omega arith)
  rebuild_request PduClass.request_fc23 id h =
      let (q, e, eq) = as_packet_inv Packet.request_fc23 (RequestFc23.deserialize (b ∷ t)) p h in
      subst₂ (λ u k. Packet.serialize u ≡ ok (k ∷ t)) eq id
        (RequestFc23.lossless.rebuilds (b ∷ t) q bytes e)
  rebuild_request PduClass.response_fc23 id h = absurd (omega arith)
