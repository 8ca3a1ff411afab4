-- ===== src/Simulators/Connections/Sweep.antt =====
-- _sweep_inactive of simulators/server.py against the connections that have been heard from in time.
use pyomb.Prelude.{
  ℕ, ◌+◌, ◌≡◌, ◌≢◌, refl, sym, ap, subst, ◌∙◌, true, false, Option, some, List, [], ◌∷◌, ◌++◌, ltb,
  ◌==◌, if◌then◌else◌, Bool-cases, inl, inr, arith, append_assoc,
}
use pyomb.Simulators.Connections.{
  Register, Connections, Settings, has, pop, lookup, forget, sweep_one, sweep_list, sweep_inactive,
}
use pyomb.Simulators.Connections.Registers.{keys, Distinct}
use pyomb.Simulators.Connections.Steps.{Consistent, has-cons, sweep_list-Consistent}

-- The entries within the timeout.
unfoldable pub recent : Settings → ℕ → Register → Register
recent s now [] = []
recent s now ((k, t) ∷ r) =
    let rest = recent s now r in if ltb (t + s.inactive_timeout) now then rest else (k, t) ∷ rest

lookup-middle :
    (k t : ℕ) (d r : Register) → has k (keys d) ≡ false → lookup k (d ++ ((k, t) ∷ r)) ≡ some t
unfolding lookup has
lookup-middle k t [] r h = let same : (k == k) ≡ true = ground arith in rw same refl
lookup-middle k t ((x, v) ∷ d) r h = elim (Bool-cases (x == k)) [
  | inl here ↦ absurd (let bad = rw here at h in cc)
  | inr there ↦ rw there (lookup-middle k t d r (rw there at h))
]

pop-middle :
    (k t : ℕ) (d r : Register) → has k (keys d) ≡ false → pop k (d ++ ((k, t) ∷ r)) ≡ d ++ r
unfolding pop has
pop-middle k t [] r h = let same : (k == k) ≡ true = ground arith in rw same refl
pop-middle k t ((x, v) ∷ d) r h = elim (Bool-cases (x == k)) [
  | inl here ↦ absurd (let bad = rw here at h in cc)
  | inr there ↦ rw there (ap (λ (u : Register). (x, v) ∷ u) (pop-middle k t d r (rw there at h)))
]

-- Keys that are not among those of a register.
abbrev Apart : List ℕ → Register → Type 0
Apart [] d = Unit
Apart (k ∷ l) d = (has k (keys d) ≡ false) × Apart l d

has-last :
    (x k t : ℕ) (d : Register)
    → has x (keys d) ≡ false
    → k ≢ x
    → has x (keys (d ++ ((k, t) ∷ []))) ≡ false
unfolding has
has-last x k t [] h ne = let differs : (k == x) ≡ false = ground arith in rw differs refl
has-last x k t ((y, v) ∷ d) h ne = elim (Bool-cases (y == x)) [
  | inl here ↦ absurd (let bad = rw here at h in cc)
  | inr there ↦ rw there (has-last x k t d (rw there at h) ne)
]

Apart-last :
    (l : List ℕ) (k t : ℕ) (d : Register)
    → Apart l d
    → has k l ≡ false
    → Apart l (d ++ ((k, t) ∷ []))
Apart-last [] k t d h new = tt
Apart-last (x ∷ l) k t d (h, rest) new =
    let (ne, others) = has-cons k x l new in
    (has-last x k t d h (λ same. ne (sym same)), Apart-last l k t d rest others)

Apart-nil : (l : List ℕ) → Apart l []
unfolding has
Apart-nil [] = tt
Apart-nil (k ∷ l) = (refl, Apart-nil l)

-- What a turn of the loop does with a client, by the time at which it was last heard from.
abbrev turn : Settings → ℕ → ℕ → Option ℕ → Connections → Connections
turn s now k last c = if k == s.srv then c else sweep_one s now k last c

turn-client :
    (s : Settings) (now k t : ℕ) (last : Option ℕ) (c : Connections)
    → (k == s.srv) ≡ false
    → last ≡ some t
    → turn s now k last c ≡ (if ltb (t + s.inactive_timeout) now then forget k c else c)
unfolding sweep_one
turn-client s now k t last c client seen = rw (client, seen) refl

walk :
    (s : Settings) (now : ℕ) (d todo : Register) (c : Connections)
    → c.last_activity ≡ d ++ todo
    → Distinct (s.srv ∷ keys todo)
    → Apart (keys todo) d
    → (sweep_list s now (keys todo) c).last_activity ≡ d ++ recent s now todo
unfolding sweep_list forget recent
walk s now d [] c e distinct apart = e
walk s now d ((k, t) ∷ todo) c e (listener, (new, distinct)) (outside, apart) =
    let (ne, others) = has-cons s.srv k (keys todo) listener in
    let client : (k == s.srv) ≡ false = ground arith in
    let seen : lookup k c.last_activity ≡ some t =
      ap (lookup k) e ∙ lookup-middle k t d todo outside in
    let turns = turn-client s now k t (lookup k c.last_activity) c client seen in
    let go : Connections → Register = λ x. (sweep_list s now (keys todo) x).last_activity in
    ap go turns ∙ elim (Bool-cases (ltb (t + s.inactive_timeout) now)) [
      | inl stale ↦ rw stale (
          walk s now d todo (forget k c) (ap (pop k) e ∙ pop-middle k t d todo outside)
            (others, distinct) apart)
      | inr timely ↦ rw timely (
          walk s now (d ++ ((k, t) ∷ [])) todo c (e ∙ sym (append_assoc d ((k, t) ∷ []) todo))
            (others, distinct) (Apart-last (keys todo) k t d apart new)
          ∙ append_assoc d ((k, t) ∷ []) (recent s now todo))
    ]

skip :
    (s : Settings) (now : ℕ) (l : List ℕ) (c : Connections)
    → (sweep_list s now (s.srv ∷ l) c).last_activity ≡ (sweep_list s now l c).last_activity
unfolding sweep_list
skip s now l c =
    let listener : (s.srv == s.srv) ≡ true = ground arith in
    subst
      (λ b.
        (sweep_list s now l
          (if b then c else sweep_one s now s.srv (lookup s.srv c.last_activity) c)).last_activity
        ≡ (sweep_list s now l c).last_activity)
      (sym listener) refl

-- Where the bookkeeping is consistent, a sweep drops just the connections that were last heard from
-- longer ago than the timeout, and leaves the bookkeeping consistent.
pub sweep_inactive-recent :
    (s : Settings) (now : ℕ) (c : Connections)
    → Consistent s c
    → ((sweep_inactive s now c).last_activity ≡ recent s now c.last_activity)
      × ((sweep_inactive s now c).clients ≡ keys (recent s now c.last_activity))
      × Consistent s (sweep_inactive s now c)
unfolding sweep_inactive
sweep_inactive-recent s now c (reads, names, seen, distinct, bound) =
    let all = reads ∙ ap (λ (l : List ℕ). s.srv ∷ l) (sym seen) in
    let fresh = subst (λ (l : List ℕ). Distinct (s.srv ∷ l)) (sym seen) distinct in
    let kept =
      ap (λ l. (sweep_list s now l c).last_activity) all
      ∙ skip s now (keys c.last_activity) c
      ∙ walk s now [] c.last_activity c refl fresh (Apart-nil (keys c.last_activity)) in
    let after = sweep_list-Consistent s now c.read_list c (reads, names, seen, distinct, bound) in
    (kept, sym after.2 ∙ ap keys kept, after)
