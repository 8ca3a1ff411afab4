-- ===== src/Transport/Tls/Relaxations.antt =====
-- relaxations of transport/tls.py against the context that is built.
use mathlib.Core.List.{Memᴰ}
use mathlib.Core.List.Memᴰ
use pyomb.Prelude.{
  ◌≡◌, ◌≢◌, ◌↔◌, ◌⊎◌, inl, inr, refl, sym, ap, subst, ◌∙◌, Bool, true, false, Option, none, some,
  List, ◌++◌, if◌then◌else◌,
}
use pyomb.Errors.{ok, err, os_error, value_error}
use pyomb.Struct.{Bytes}
use pyomb.Transport.SslContext
use pyomb.Transport.SslContext.{VerifyMode, cert_none, cert_optional, cert_required, Ssl, promoted}
use pyomb.Transport.Tls.{
  TlsRole, client, server, TlsSettings, resolved, context, relaxations, Relaxation, custom_ciphers,
  certificate_policy, hostname_off, ciphers_weakened, mode_weakened, hostname_weakened,
}
use pyomb.Transport.Tls.Building.{
  chosen, baseline_protocol, baseline_hostname, makes, negotiates, usable, built, context-built,
}

-- What a weakening says of a context's ciphers, its policy and its test of names, in a role.
abbrev Holds : TlsRole → Option Bytes → VerifyMode → Bool → Relaxation → Type 0
Holds role suite mode check (custom_ciphers named) = suite ≡ some named
Holds role suite mode check (certificate_policy named) = (mode ≡ named) × (named ≢ cert_required)
Holds role suite mode check hostname_off = (role ≡ client) × (check ≡ false)

-- Whether a context is weakened so: it has those ciphers, or that policy, which is not to require
-- a certificate, or it is a client's and checks no names.
abbrev pub Carries : TlsRole → SslContext.SslContext → Relaxation → Type 0
Carries role c x = Holds role c.ciphers c.verify_mode c.check_hostname x

ciphers-Holds :
    (role : TlsRole) (suite : Option Bytes) (mode : VerifyMode) (check : Bool) (x : Relaxation)
    → Memᴰ x (ciphers_weakened suite)
    → Holds role suite mode check x
unfolding ciphers_weakened
ciphers-Holds role none mode check x m = absurd (Memᴰ.not-nil m)
ciphers-Holds role (some s) mode check x m =
    subst (Holds role (some s) mode check) (sym (Memᴰ.eq_of_singleton m)) refl

mode-Holds :
    (role : TlsRole) (suite : Option Bytes) (mode : VerifyMode) (check : Bool) (x : Relaxation)
    → Memᴰ x (mode_weakened mode)
    → Holds role suite mode check x
unfolding mode_weakened
mode-Holds role suite cert_none check x m =
    subst (Holds role suite cert_none check) (sym (Memᴰ.eq_of_singleton m)) (refl, λ e. cc)
mode-Holds role suite cert_optional check x m =
    subst (Holds role suite cert_optional check) (sym (Memᴰ.eq_of_singleton m)) (refl, λ e. cc)
mode-Holds role suite cert_required check x m = absurd (Memᴰ.not-nil m)

hostname-Holds :
    (role : TlsRole) (suite : Option Bytes) (mode : VerifyMode) (check : Bool) (x : Relaxation)
    → Memᴰ x (hostname_weakened (baseline_hostname role) check)
    → Holds role suite mode check x
unfolding hostname_weakened
hostname-Holds client suite mode false x m =
    subst (Holds client suite mode false) (sym (Memᴰ.eq_of_singleton m)) (refl, refl)
hostname-Holds client suite mode true x m = absurd (Memᴰ.not-nil m)
hostname-Holds server suite mode false x m = absurd (Memᴰ.not-nil m)
hostname-Holds server suite mode true x m = absurd (Memᴰ.not-nil m)

-- The weakenings of the values that are chosen.
abbrev phrases : TlsRole → Option Bytes → VerifyMode → Bool → List Relaxation
phrases role suite mode check =
    ciphers_weakened suite ++ mode_weakened mode ++ hostname_weakened (baseline_hostname role) check

phrases-Holds :
    (role : TlsRole) (suite : Option Bytes) (mode : VerifyMode) (check : Bool) (x : Relaxation)
    → Memᴰ x (phrases role suite mode check)
    → Holds role suite mode check x
phrases-Holds role suite mode check x m =
    elim (Memᴰ.append_cases (ciphers_weakened suite ++ mode_weakened mode) m) [
      | inl front ↦ elim (Memᴰ.append_cases (ciphers_weakened suite) front) [
        | inl here ↦ ciphers-Holds role suite mode check x here
        | inr here ↦ mode-Holds role suite mode check x here
      ]
      | inr last ↦ hostname-Holds role suite mode check x last
    ]

mode-named :
    (mode : VerifyMode) → mode ≢ cert_required → Memᴰ (certificate_policy mode) (mode_weakened mode)
unfolding mode_weakened
mode-named cert_none ne = Memᴰ.head refl
mode-named cert_optional ne = Memᴰ.head refl
mode-named cert_required ne = absurd (ne refl)

Holds-phrases :
    (role : TlsRole) (suite : Option Bytes) (mode : VerifyMode) (check : Bool) (x : Relaxation)
    → Holds role suite mode check x
    → Memᴰ x (phrases role suite mode check)
unfolding ciphers_weakened hostname_weakened
Holds-phrases role suite mode check (custom_ciphers named) h =
    subst (λ o. Memᴰ (custom_ciphers named) (phrases role o mode check)) (sym h) (Memᴰ.head refl)
Holds-phrases role suite mode check (certificate_policy named) (same, ne) =
    subst (λ v. Memᴰ (certificate_policy named) (phrases role suite v check)) (sym same)
      (Memᴰ.append_left (hostname_weakened (baseline_hostname role) check)
        (Memᴰ.append_right (ciphers_weakened suite) (mode-named named ne)))
Holds-phrases role suite mode check hostname_off (same, off) =
    subst (λ b. Memᴰ hostname_off (phrases role suite mode b)) (sym off)
      (subst (λ (k : TlsRole). Memᴰ hostname_off (phrases k suite mode false)) (sym same)
        (Memᴰ.append_right (ciphers_weakened suite ++ mode_weakened mode) (Memᴰ.head refl)))

relaxations-phrases :
    (s : TlsSettings) (role : TlsRole)
    → relaxations s role
      ≡ phrases role
          (chosen s.ciphers none)
          (chosen s.verify_mode cert_required)
          (chosen s.verify_hostname (baseline_hostname role))
unfolding relaxations resolved
relaxations-phrases s client = refl
relaxations-phrases s server = refl

given :
    {A : Type 0} (x y z : Bool) (b c : A)
    → (if x
        then (if y then (if z then ok b else err value_error) else err os_error)
        else err value_error)
      ≡ ok c
    → b ≡ c
given true true true b c h = ap (λ r. elim r [ ok v ↦ v | err e ↦ b ]) h
given true true false b c h = absurd cc
given true false z b c h = absurd cc
given false y z b c h = absurd cc

promoted-cases :
    (check : Bool) (mode : VerifyMode)
    → (promoted check mode ≡ mode)
      ⊎ ((mode ≡ cert_none) × (promoted check mode ≡ cert_required) × (check ≡ true))
promoted-cases true cert_none = inr (refl, refl, refl)
promoted-cases true cert_optional = inl refl
promoted-cases true cert_required = inl refl
promoted-cases false mode = inl refl

compared :
    (role : TlsRole) (suite : Option Bytes) (mode : VerifyMode) (check : Bool) (x : Relaxation)
    → (Memᴰ x (phrases role suite mode check) ↔ Holds role suite (promoted check mode) check x)
      ⊎ (Memᴰ (certificate_policy cert_none) (phrases role suite mode check)
          × (promoted check mode ≡ cert_required)
          × (check ≡ true))
compared role suite mode check x = elim (promoted-cases check mode) [
  | inl kept ↦ inl (
      subst (λ v. Memᴰ x (phrases role suite mode check) ↔ Holds role suite v check x) (sym kept)
        (phrases-Holds role suite mode check x, Holds-phrases role suite mode check x))
  | inr (asked, required, checked) ↦ inr (
    Holds-phrases role suite mode check (certificate_policy cert_none) (asked, λ e. cc),
    required,
    checked,
  )
]

-- Where `context` gives a context, `relaxations` names just the weakenings that it carries: its
-- ciphers where they are not the default suite, its certificate policy where that is not to require
-- one, and that it checks no names where it is a client's. Or else it names the policy to ask for
-- no certificate, while the context checks names and requires a certificate.
pub relaxations-carried :
    (ssl : Ssl) (s : TlsSettings) (role : TlsRole) (c : SslContext.SslContext) (x : Relaxation)
    → context ssl s role ≡ ok c
    → (Memᴰ x (relaxations s role) ↔ Carries role c x)
      ⊎ (Memᴰ (certificate_policy cert_none) (relaxations s role)
          × (c.verify_mode ≡ cert_required)
          × (c.check_hostname ≡ true))
unfolding built
relaxations-carried ssl s role c x h =
    let same : built s role ≡ c =
      given (makes ssl (chosen s.protocol (baseline_protocol role))) (usable ssl s)
        (negotiates (chosen s.protocol (baseline_protocol role))) (built s role) c
        (sym (context-built ssl s role) ∙ h) in
    let suite = chosen s.ciphers none in
    let mode = chosen s.verify_mode cert_required in
    let check = chosen s.verify_hostname (baseline_hostname role) in
    subst
      (λ (k : SslContext.SslContext).
        (Memᴰ x (relaxations s role) ↔ Carries role k x)
        ⊎ (Memᴰ (certificate_policy cert_none) (relaxations s role)
            × (k.verify_mode ≡ cert_required)
            × (k.check_hostname ≡ true)))
      same
      (subst
        (λ (l : List Relaxation).
          (Memᴰ x l ↔ Holds role suite (promoted check mode) check x)
          ⊎ (Memᴰ (certificate_policy cert_none) l
              × (promoted check mode ≡ cert_required)
              × (check ≡ true)))
        (sym (relaxations-phrases s role)) (compared role suite mode check x))
