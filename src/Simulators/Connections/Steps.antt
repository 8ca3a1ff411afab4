-- ===== src/Simulators/Connections/Steps.antt =====
-- The loop of simulators/server.py as steps on its bookkeeping, while the server processes connections.
use pyomb.Prelude.{
  ℕ, suc, ◌+◌, ◌-◌, ◌≤◌, ◌≡◌, ◌≢◌, refl, sym, ap, subst, ◌∙◌, true, false, Option, none, some, List,
  [], ◌∷◌, ◌++◌, length, ltb, leb, ◌==◌, if◌then◌else◌, Bool-cases, inl, inr, arith, length-append,
}
use pyomb.Errors.{Result, ok, err}
use pyomb.Struct.{Bytes}
use pyomb.Transport.Socket.{Inbox, Outbox}
use pyomb.Transport.TcpStream
use pyomb.Simulators.Server.{ModbusServerSimulator, on_data}
use pyomb.Simulators.Connections.{
  Connections, Settings, Link, has, remove, lookup, opened, forget, accept_connection, touch, kept,
  served, serve, sweep_one, sweep_list, sweep_inactive,
}
use pyomb.Simulators.Connections.Registers.{
  keys, keys-pop, keys-assign_new, keys-assign_old, Distinct, remove-Distinct, append-Distinct,
  has-remove, has-append, length-remove,
}

-- A pass of the loop: a connection of a socket that is new, a client that is served, and a sweep.
pub data Step (s : Settings) : Connections → Connections → Type 0 where
  accepts :
      (c : Connections) (conn addr now : ℕ)
      → has conn (s.srv ∷ c.clients) ≡ false
      → Step s c (accept_connection s conn addr now c)
  serves :
      (server : ModbusServerSimulator) (frag_size conn now : ℕ) (link : Link) (c : Connections)
      → has conn c.clients ≡ true
      → Step s c (serve server frag_size conn now c link).0
  sweeps : (c : Connections) (now : ℕ) → Step s c (sweep_inactive s now c)

pub data Steps (s : Settings) : Connections → Connections → Type 0 where
  stays : (c : Connections) → Steps s c c
  follows : (c d e : Connections) → Steps s c d → Step s d e → Steps s c e

-- The four lists name the same clients in the same order, none twice and not the listening socket, and
-- no more than the limit.
abbrev pub Consistent : Settings → Connections → Type 0
Consistent s c =
    (c.read_list ≡ s.srv ∷ c.clients)
    × (keys c.peer_names ≡ c.clients)
    × (keys c.last_activity ≡ c.clients)
    × Distinct (s.srv ∷ c.clients)
    × (length c.clients ≤ s.connection_limit)

opened-Consistent : (s : Settings) → Consistent s (opened s)
unfolding opened
opened-Consistent s = (refl, refl, refl, (unfold has in refl, tt), omega arith)

remove-head : (srv conn : ℕ) (l : List ℕ) → srv ≢ conn → remove conn (srv ∷ l) ≡ srv ∷ remove conn l
unfolding remove
remove-head srv conn l ne = let differs : (srv == conn) ≡ false = ground arith in rw differs refl

pub forget-Consistent :
    (s : Settings) (conn : ℕ) (c : Connections)
    → s.srv ≢ conn
    → Consistent s c
    → Consistent s (forget conn c)
unfolding forget
forget-Consistent s conn c ne (reads, names, seen, (fresh, distinct), bound) = (
  ap (remove conn) reads ∙ remove-head s.srv conn c.clients ne,
  keys-pop conn c.peer_names ∙ ap (remove conn) names,
  keys-pop conn c.last_activity ∙ ap (remove conn) seen,
  (has-remove s.srv conn c.clients fresh, remove-Distinct conn c.clients distinct),
  omega (arith, length-remove conn c.clients),
)

pub has-cons : (k x : ℕ) (l : List ℕ) → has k (x ∷ l) ≡ false → (x ≢ k) × (has k l ≡ false)
unfolding has
has-cons k x l h = elim (Bool-cases (x == k)) [
  | inl here ↦ absurd (let bad = rw here at h in cc)
  | inr there ↦ (
    λ same. absurd (let here : (x == k) ≡ true = ground arith in let bad = rw here at h in cc),
    rw there at h,
  )
]

accept_connection-Consistent :
    (s : Settings) (c : Connections) (conn addr now : ℕ)
    → s.process_connections ≡ true
    → has conn (s.srv ∷ c.clients) ≡ false
    → Consistent s c
    → Consistent s (accept_connection s conn addr now c)
unfolding accept_connection
accept_connection-Consistent s c conn addr now processes new
      (reads, names, seen, (fresh, distinct), bound) =
    let (other, absent) = has-cons conn s.srv c.clients new in
    elim (Bool-cases (leb s.connection_limit (length c.read_list - 1))) [
      | inl full ↦ rw full (reads, names, seen, (fresh, distinct), bound)
      | inr free ↦
          let size : length c.read_list ≡ suc (length c.clients) = ap length reads in
          rw (free, processes)
            (
              ap (λ (l : List ℕ). l ++ (conn ∷ [])) reads,
              keys-assign_new conn addr c.peer_names (ap (has conn) names ∙ absent)
                  ∙ ap (λ (l : List ℕ). l ++ (conn ∷ [])) names,
              keys-assign_new conn now c.last_activity (ap (has conn) seen ∙ absent)
                  ∙ ap (λ (l : List ℕ). l ++ (conn ∷ [])) seen,
              (
                has-append s.srv conn c.clients fresh (λ same. other (sym same)),
                append-Distinct conn c.clients absent distinct,
              ),
              ground (arith, length-append c.clients (conn ∷ [])),
            )
    ]

touch-Consistent :
    (s : Settings) (conn now : ℕ) (c : Connections)
    → has conn c.clients ≡ true
    → Consistent s c
    → Consistent s (touch conn now c)
touch-Consistent s conn now c known (reads, names, seen, distinct, bound) = (
  reads,
  names,
  keys-assign_old conn now c.last_activity (ap (has conn) seen ∙ known) ∙ seen,
  distinct,
  bound,
)

-- A client is not the listening socket.
client-ne :
    (s : Settings) (conn : ℕ) (c : Connections)
    → Consistent s c
    → has conn c.clients ≡ true
    → s.srv ≢ conn
client-ne s conn c (_, _, _, (fresh, _), _) known same =
    let bad : has conn c.clients ≡ false = subst (λ k. has k c.clients ≡ false) same fresh in cc

kept-Consistent :
    (s : Settings) (conn : ℕ) (c : Connections) (r : Result (Unit {0}))
    → s.srv ≢ conn
    → Consistent s c
    → Consistent s (kept conn c r)
unfolding kept
kept-Consistent s conn c (ok _) ne h = h
kept-Consistent s conn c (err e) ne h = forget-Consistent s conn c ne h

served-Consistent :
    (s : Settings) (server : ModbusServerSimulator) (conn now : ℕ) (c : Connections) (o : Outbox)
    (r : Result Bytes × Inbox)
    → has conn c.clients ≡ true
    → Consistent s c
    → Consistent s (served server conn now c o r).0
unfolding served
served-Consistent s server conn now c o (err e, q) known h =
    forget-Consistent s conn c (client-ne s conn c h known) h
served-Consistent s server conn now c o (ok [], q) known h =
    forget-Consistent s conn c (client-ne s conn c h known) h
served-Consistent s server conn now c o (ok (b ∷ t), q) known h =
    kept-Consistent s conn (touch conn now c) (on_data server (b ∷ t) o).0
      (client-ne s conn c h known) (touch-Consistent s conn now c known h)

sweep_one-Consistent :
    (s : Settings) (now conn : ℕ) (last : Option ℕ) (c : Connections)
    → s.srv ≢ conn
    → Consistent s c
    → Consistent s (sweep_one s now conn last c)
unfolding sweep_one
sweep_one-Consistent s now conn none c ne h = h
sweep_one-Consistent s now conn (some t) c ne h =
    elim (Bool-cases (ltb (t + s.inactive_timeout) now)) [
      | inl stale ↦ rw stale (forget-Consistent s conn c ne h)
      | inr recent ↦ rw recent h
    ]

sweep_turn-Consistent :
    (s : Settings) (now conn : ℕ) (last : Option ℕ) (c : Connections)
    → Consistent s c
    → Consistent s (if conn == s.srv then c else sweep_one s now conn last c)
sweep_turn-Consistent s now conn last c h = elim (Bool-cases (conn == s.srv)) [
  | inl listener ↦
      subst (λ b. Consistent s (if b then c else sweep_one s now conn last c)) (sym listener) h
  | inr client ↦
      subst (λ b. Consistent s (if b then c else sweep_one s now conn last c)) (sym client)
        (sweep_one-Consistent s now conn last c
          (λ same. absurd (let listener : (conn == s.srv) ≡ true = ground arith in cc)) h)
]

pub sweep_list-Consistent :
    (s : Settings) (now : ℕ) (l : List ℕ) (c : Connections)
    → Consistent s c
    → Consistent s (sweep_list s now l c)
unfolding sweep_list
sweep_list-Consistent s now [] c h = h
sweep_list-Consistent s now (conn ∷ l) c h =
    sweep_list-Consistent s now l _
      (sweep_turn-Consistent s now conn (lookup conn c.last_activity) c h)

Step-Consistent :
    (s : Settings) (c d : Connections)
    → s.process_connections ≡ true
    → Step s c d
    → Consistent s c
    → Consistent s d
unfolding serve sweep_inactive
Step-Consistent s _ _ processes (accepts c conn addr now new) h =
    accept_connection-Consistent s c conn addr now processes new h
Step-Consistent s _ _ processes (serves server frag_size conn now (q, o) c known) h =
    served-Consistent s server conn now c o (TcpStream.receive frag_size q) known h
Step-Consistent s _ _ processes (sweeps c now) h = sweep_list-Consistent s now c.read_list c h

follows-Consistent :
    (s : Settings) (c d : Connections)
    → s.process_connections ≡ true
    → Steps s c d
    → Consistent s c
    → Consistent s d
follows-Consistent s _ _ processes (stays c) h = h
follows-Consistent s _ _ processes (follows c d e before last) h =
    Step-Consistent s d e processes last (follows-Consistent s c d processes before h)

-- While the server processes connections, after any passes of its loop from its opening, whatever
-- arrives and whatever its handler raises, its read list, its clients, its peer names and its times
-- of activity name the same connections in the same order, none twice and not the listener, and no
-- more than the limit.
pub Steps-Consistent :
    (s : Settings) (d : Connections)
    → s.process_connections ≡ true
    → Steps s (opened s) d
    → Consistent s d
Steps-Consistent s d processes steps =
    follows-Consistent s (opened s) d processes steps (opened-Consistent s)
