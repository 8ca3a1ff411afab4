-- ===== src/Io.antt =====
-- Calls that change a state and may raise: the state comes back after a raise too.
use pyomb.Errors.{Result, ok, err, Error, os_error, network_error}

abbrev pub Action : Type 0 → Type 0 → Type 0
Action S A = S → Result A × S

-- What follows a call runs on its value in the state that it left.
abbrev pub continue : {S A B : Type 0} → (A → Action S B) → Result A × S → Result B × S
continue next (ok a, s) = next a s
continue next (err raised, s) = (err raised, s)

infixl 5 ◌>>=◌ ◌>>◌
abbrev pub ◌>>=◌ : {S A B : Type 0} → Action S A → (A → Action S B) → Action S B
◌>>=◌ call next s = continue next (call s)

abbrev pub ◌>>◌ : {S B : Type 0} → Action S (Unit {0}) → Action S B → Action S B
◌>>◌ call next s = continue (λ done. next) (call s)

-- A value or an error that does not depend on the state.
abbrev pub lift : {S A : Type 0} → Result A → Action S A
lift r s = (r, s)

abbrev pub pure : {S A : Type 0} → A → Action S A
pure a s = (ok a, s)

abbrev pub raise : {S A : Type 0} → Error → Action S A
raise e s = (err e, s)

-- `except OSError as e: raise ModbusNetworkError(...) from e`
abbrev pub as_network : {A : Type 0} → Result A → Result A
as_network (ok a) = ok a
as_network (err os_error) = err network_error
as_network (err e) = err e

abbrev pub catch_os : {S A : Type 0} → Action S A → Action S A
catch_os call s = (as_network (call s).0, (call s).1)
