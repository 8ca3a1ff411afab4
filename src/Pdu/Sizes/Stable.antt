-- ===== src/Pdu/Sizes/Stable.antt =====
-- `expected_size` of pdu/common.py and pdu/diagnostics.py, as more bytes arrive.
use pyomb.Prelude.{ℕ, zero, suc, ◌-◌, ◌≡◌, ◌≢◌, ◌<◌, refl, [], ◌∷◌, ◌++◌, arith, length, none}
use pyomb.Errors.{ok}
use pyomb.Struct.{Bytes, calcsize}
use pyomb.Pdu.Classes.{PduClass}
use pyomb.Pdu.Classes.{Layout, layout, layout_size, byte_at, expected_size}
use pyomb.Pdu.Diagnostics.SubFunctions.{size_from_prefix}
use pyomb.Prelude.{length-append}

pub byte_at-append : (s t : Bytes) (i : ℕ) → i < length s → byte_at (s ++ t) i ≡ byte_at s i
unfolding byte_at
byte_at-append [] t i h = absurd (omega arith)
byte_at-append (b ∷ s) t zero h = refl
byte_at-append (b ∷ s) t (suc i) h = byte_at-append s t i (omega arith)

layout_pos : (c : PduClass) → 0 < calcsize (layout c).head
unfolding layout
layout_pos PduClass.generic = omega arith
layout_pos _ = omega arith

layout_size-append :
    (l : Layout) (s t : Bytes)
    → 0 < calcsize l.head
    → layout_size l s ≢ ok none
    → layout_size l (s ++ t) ≡ layout_size l s
unfolding layout_size
layout_size-append l s t positive known =
    ground (arith, length-append s t, byte_at-append s t (calcsize l.head - 1))

size_from_prefix-append :
    (s t : Bytes) → size_from_prefix s ≢ ok none → size_from_prefix (s ++ t) ≡ size_from_prefix s
unfolding size_from_prefix
size_from_prefix-append [] t known = absurd (known refl)
size_from_prefix-append (a ∷ []) t known = absurd (known refl)
size_from_prefix-append (a ∷ b ∷ []) t known = absurd (known refl)
size_from_prefix-append (a ∷ b ∷ c ∷ s) t known = refl

-- A verdict of `expected_size` other than that more bytes are needed is the same when more bytes
-- follow.
pub expected_size-append :
    (c : PduClass) (s t : Bytes)
    → expected_size c s ≢ ok none
    → expected_size c (s ++ t) ≡ expected_size c s
unfolding expected_size
expected_size-append PduClass.request_fc8 s t known = size_from_prefix-append s t known
expected_size-append PduClass.response_fc8 s t known = size_from_prefix-append s t known
expected_size-append c s t known = layout_size-append (layout c) s t (layout_pos c) known
