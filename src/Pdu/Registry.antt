-- ===== src/Pdu/Registry.antt =====
-- The registry of ModbusPduParser, pdu/common.py, under the operations that change it.
use pyomb.Prelude.{
  ℕ, ◌≡◌, ◌⊎◌, inl, inr, refl, List, [], ◌∷◌, arith, ◌==◌, Bool-cases, if◌then◌else◌,
}
use pyomb.Pdu.Classes.{PduClass, pdu_id}
use pyomb.Pdu.Parser.{
  Registry, get, put, register, clear_registry, default_registry, register_all, registered_classes,
}

pub get-put :
    (key j : ℕ) (c : PduClass) (r : Registry)
    → get (put key c r) j ≡ (if key == j then c else get r j)
unfolding get put
get-put key j c [] = refl
get-put key j c ((k, d) ∷ r) = ground (arith, get-put key j c r)

-- After a class is registered the registry answers with it to its PDU_ID, and to any other key as
-- before.
pub get-register :
    (c : PduClass) (r : Registry) (j : ℕ)
    → get (register c r) j ≡ (if pdu_id c == j then c else get r j)
unfolding register
get-register c r j = get-put (pdu_id c) j c r

-- The answer to a key is the generic class, or a class with that PDU_ID.
abbrev pub IsKeyed : Registry → Type 0
IsKeyed r = (j : ℕ) → (get r j ≡ PduClass.generic) ⊎ (pdu_id (get r j) ≡ j)

pub clear_registry-IsKeyed : (r : Registry) → IsKeyed (clear_registry r)
unfolding clear_registry get
clear_registry-IsKeyed r j = inl refl

-- Registering a class keeps the invariant that the registry answers to each key with the generic
-- class or a class that has the key as its PDU_ID.
pub register-IsKeyed : (c : PduClass) (r : Registry) → IsKeyed r → IsKeyed (register c r)
register-IsKeyed c r keyed j = elim (Bool-cases (pdu_id c == j)) [
  | inl same ↦ inr (rw (get-register, same) (ground arith))
  | inr other ↦ rw (get-register, other) (keyed j)
]

pub register_all-IsKeyed :
    (cs : List PduClass) (r : Registry) → IsKeyed r → IsKeyed (register_all cs r)
unfolding register_all
register_all-IsKeyed [] r keyed = keyed
register_all-IsKeyed (c ∷ cs) r keyed =
    register_all-IsKeyed cs (register c r) (register-IsKeyed c r keyed)

pub default_registry-IsKeyed : IsKeyed default_registry
unfolding default_registry get
default_registry-IsKeyed = register_all-IsKeyed registered_classes [] (λ j. inl refl)
