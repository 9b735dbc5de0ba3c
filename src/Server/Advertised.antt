-- ===== src/Server/Advertised.antt =====
-- What internal/server listens on, and what it tells the clients of HTTP/3.
use maboo.Base.{
  ℕ, List, ◌≡◌, ◌≢◌, refl, subst, str_eq, Bool, true, false, ◌&&◌, arith, if◌then◌else◌, some, none,
  Bool-cases, inl, inr,
}
use maboo.Base.Dict.{lookup, insert}
use maboo.Base.Results.{Result, ok, err, ◌>>=◌}
use maboo.Config.{Config, AcmeConfig}
use maboo.Server.Listen.{
  Machine, Server, no_names, Listening, own_certificate, is_set, configured, from_acme, StartError,
  no_certificate, self_signed, Certificates, after_acme, after_self_sign, plain, start, start_tls,
  new, enable_http2, setup_acme, self_sign, after_generate, listen_configured, new_http3_server,
  new_acme_manager,
}
use maboo.Server.Certificate.{CertError, generate_self_signed_cert}
use maboo.Server.Stack.{alt_svc}

abbrev is_configured : Result StartError Listening → Bool
is_configured (ok (configured c)) = true
is_configured _ = false

abbrev is_from_acme : Result StartError Listening → Bool
is_from_acme (ok (configured (from_acme dir staging))) = true
is_from_acme _ = false

-- An error other than the lack of a certificate.
abbrev IsOther : StartError → Type 0
IsOther no_certificate = ⊥
IsOther _ = Unit {0}

abbrev SameListening : Result StartError Listening → Result StartError Listening → Type 0
SameListening a b = a ≡ b

err_same : (e f : StartError) → SameListening (err e) (err f) → e ≡ f
err_same e f h = cc

err-IsOther : (e : StartError) → IsOther e → SameListening (err e) (err no_certificate) → ⊥
err-IsOther e o h = subst IsOther (err_same e no_certificate h) o

-- What the set-up of ACME may give.
abbrev OfAcme : Bool → Result StartError (Certificates × Bool) → Type 0
OfAcme redirect (err e) = IsOther e
OfAcme redirect (ok (from_acme dir staging, r)) = r ≡ redirect
OfAcme redirect (ok (self_signed cert key, r)) = ⊥

abbrev Managed : Result StartError Certificates → Type 0
Managed (err e) = IsOther e
Managed (ok (from_acme dir staging)) = Unit {0}
Managed (ok (self_signed cert key)) = ⊥

abbrev OfSelf : Result StartError Certificates → Type 0
OfSelf (err e) = IsOther e
OfSelf (ok (from_acme dir staging)) = ⊥
OfSelf (ok (self_signed cert key)) = Unit {0}

new_acme_manager-Managed :
    (machine : Machine) (acme : AcmeConfig) → Managed (new_acme_manager machine acme)
unfolding new_acme_manager
new_acme_manager-Managed machine acme =
    let dir = if str_eq acme.cache_dir "" then "/var/lib/maboo/certs" else acme.cache_dir in
    elim (Bool-cases (str_eq acme.email "")) [
      | inl e ↦ rw e tt
      | inr e ↦ elim (Bool-cases (no_names acme.domains)) [
        | inl n ↦ rw (e, n) tt
        | inr n ↦ elim (Bool-cases (machine.mkdir_all dir)) [
          | inl d ↦ rw (e, n, d) tt
          | inr d ↦ rw (e, n, d) tt
        ]
      ]
    ]

with_redirect :
    (redirect : Bool) (r : Result StartError Certificates)
    → Managed r
    → OfAcme redirect (r >>= λ c. ok (c, redirect))
with_redirect redirect (err e) m = m
with_redirect redirect (ok (from_acme dir staging)) m = refl
with_redirect redirect (ok (self_signed cert key)) m = m

if_false : {A : Type 0} (b : Bool) (x y : A) → b ≡ false → y ≡ (if b then x else y)
if_false true x y h = absurd (ground (arith, h))
if_false false x y h = refl

setup_acme-OfAcme :
    (machine : Machine) (cfg : Config) → OfAcme cfg.server.http_redirect (setup_acme machine cfg)
unfolding setup_acme
setup_acme-OfAcme machine cfg =
    let acme = cfg.server.tls.acme in
    elim (Bool-cases (str_eq acme.email "")) [
      | inl e ↦ rw e tt
      | inr e ↦
          subst (OfAcme cfg.server.http_redirect)
            {x = new_acme_manager machine acme >>= λ c. ok (c, cfg.server.http_redirect)}
            (if_false (str_eq acme.email "") _ _ e)
            (with_redirect cfg.server.http_redirect (new_acme_manager machine acme)
              (new_acme_manager-Managed machine acme))
    ]

after_generate-OfSelf :
    (machine : Machine) (r : Result CertError (List ℕ × List ℕ)) → OfSelf (after_generate machine r)
after_generate-OfSelf machine (err e) = tt
after_generate-OfSelf machine (ok (cert, key)) = elim (Bool-cases (machine.parses cert key)) [
  | inl p ↦ rw p tt
  | inr p ↦ rw p tt
]

self_sign-OfSelf : (machine : Machine) → OfSelf (self_sign machine)
unfolding self_sign
self_sign-OfSelf machine = after_generate-OfSelf machine (generate_self_signed_cert machine.crypto)

-- What runs beside a result of `Start`.
abbrev Beside : Config → Server × Result StartError Listening → Type 0
Beside cfg (s, r) =
    (s.has_http3 ≡ (cfg.server.http3 && is_configured r))
    × (s.has_redirect ≡ (cfg.server.http_redirect && is_from_acme r))
    × (r ≢ err no_certificate)

-- Nothing runs yet.
abbrev Fresh : Server → Type 0
Fresh s = (s.has_http3 ≡ false) × (s.has_redirect ≡ false)

new-Fresh : (cfg : Config) → Fresh (new cfg)
unfolding new enable_http2
new-Fresh cfg = (ground arith, ground arith)

after_acme-Beside :
    (cfg : Config) (s : Server) (r : Result StartError (Certificates × Bool))
    → Fresh s
    → OfAcme cfg.server.http_redirect r
    → Beside cfg (after_acme cfg s r)
unfolding listen_configured new_http3_server
after_acme-Beside cfg s (err e) f o = (ground (arith, f.0), ground (arith, f.1), err-IsOther e o)
after_acme-Beside cfg s (ok (from_acme dir staging, r)) f o =
    (ground (arith, f.0), ground (arith, f.0, f.1, o), λ h. cc)
after_acme-Beside cfg s (ok (self_signed cert key, r)) f o = absurd o

after_self_sign-Beside :
    (cfg : Config) (s : Server) (r : Result StartError Certificates)
    → Fresh s
    → OfSelf r
    → Beside cfg (after_self_sign cfg s r)
unfolding listen_configured new_http3_server
after_self_sign-Beside cfg s (err e) f o =
    (ground (arith, f.0), ground (arith, f.1), err-IsOther e o)
after_self_sign-Beside cfg s (ok (from_acme dir staging)) f o = absurd o
after_self_sign-Beside cfg s (ok (self_signed cert key)) f o =
    (ground (arith, f.0), ground (arith, f.0, f.1), λ h. cc)

start-Beside :
    (machine : Machine) (cfg : Config) (s : Server) → Fresh s → Beside cfg (start machine cfg s)
unfolding start start_tls
start-Beside machine cfg s f =
    let tls = cfg.server.tls in
    elim (Bool-cases (is_set tls.acme.email)) [
      | inl acme ↦
          subst (Beside cfg) {x = after_acme cfg s (setup_acme machine cfg)}
            {y = start machine cfg s} (ground (arith, acme))
            (after_acme-Beside cfg s (setup_acme machine cfg) f (setup_acme-OfAcme machine cfg))
      | inr acme ↦ elim (Bool-cases (is_set tls.cert && is_set tls.key)) [
        | inl own ↦
            subst (Beside cfg) {x = (s, ok (own_certificate tls.cert tls.key))}
              {y = start machine cfg s} (ground (arith, acme, own))
              (ground (arith, f.0), ground (arith, f.1), λ h. cc)
        | inr own ↦ elim (Bool-cases tls.auto) [
          | inl auto ↦
              subst (Beside cfg) {x = after_self_sign cfg s (self_sign machine)}
                {y = start machine cfg s} (ground (arith, acme, own, auto))
                (after_self_sign-Beside cfg s (self_sign machine) f (self_sign-OfSelf machine))
          | inr auto ↦
              subst (Beside cfg) {x = (s, ok plain)} {y = start machine cfg s}
                (ground (arith, acme, own, auto))
                (ground (arith, f.0), ground (arith, f.1), λ h. cc)
        ]
      ]
    ]

-- Beside its listener, `Start` runs the server of HTTP/3 just where the config asks for it and the
-- server made its TLS config itself, from ACME or self-signed, and the redirect server just where it is asked
-- for and ACME is in use. It never fails for the lack of a certificate. The middleware advertises HTTP/3
-- wherever the config asks for it, so also with a certificate of its own or without TLS.
pub beside_listener :
    (machine : Machine) (cfg : Config)
    → ((start machine cfg (new cfg)).0.has_http3
        ≡ (cfg.server.http3 && is_configured (start machine cfg (new cfg)).1))
      × ((start machine cfg (new cfg)).0.has_redirect
          ≡ (cfg.server.http_redirect && is_from_acme (start machine cfg (new cfg)).1))
      × ((start machine cfg (new cfg)).1 ≢ err no_certificate)
      × (lookup "Alt-Svc" (alt_svc cfg)
          ≡ (if cfg.server.http3 then some "h3=\":443\"; ma=86400" else none))
unfolding alt_svc lookup insert
beside_listener machine cfg =
    let (h3, redirect, never) = start-Beside machine cfg (new cfg) (new-Fresh cfg) in
    (
      h3,
      redirect,
      never,
      elim (Bool-cases cfg.server.http3) [ inl e ↦ rw e refl | inr e ↦ rw e refl ],
    )
