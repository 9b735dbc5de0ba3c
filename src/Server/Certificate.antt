-- ===== src/Server/Certificate.antt =====
-- internal/server/tls.go: the certificate that the server makes for itself in development.
-- The calls of crypto/ecdsa, crypto/rand, crypto/x509 and encoding/pem are a `Crypto`: a key is a
-- number, and times are in seconds.
use maboo.Base.{ℕ, String, Bool, true, ◌*◌, ◌+◌, ◌^◌, List, [], ◌∷◌, Option, none, some}
use maboo.Base.Results.{Result, ok, err, ◌>>=◌}

pub data KeyUsage : Type 0 where
  key_encipherment digital_signature : KeyUsage

pub data ExtKeyUsage : Type 0 where
  server_auth : ExtKeyUsage

pub record Template : Type 0 where
  pub serial_number : ℕ
  pub organization : List String
  pub not_before : ℕ
  pub not_after : ℕ
  pub key_usage : List KeyUsage
  pub ext_key_usage : List ExtKeyUsage
  pub basic_constraints_valid : Bool
  pub dns_names : List String
  pub ip_addresses : List String

pub data CertError : Type 0 where
  no_key no_serial_number not_signed not_marshalled : CertError

-- `create_certificate template parent public_key key`; `serial_below n` is a random number below `n`.
pub record Crypto : Type 0 where
  pub generate_key : Option ℕ
  pub public_key : ℕ → ℕ
  pub serial_below : ℕ → Option ℕ
  pub create_certificate : Template → Template → ℕ → ℕ → Option (List ℕ)
  pub marshal_private_key : ℕ → Option (List ℕ)
  pub encode_to_memory : String → List ℕ → List ℕ
  pub now : ℕ

abbrev pub or_error : {A : Type 0} → CertError → Option A → Result CertError A
or_error e none = err e
or_error e (some a) = ok a

unfoldable pub template_of : ℕ → ℕ → Template
template_of serial now = record {
  serial_number = serial;
  organization = "maboo development" ∷ [];
  not_before = now;
  not_after = now + 365 * 24 * 3600;
  key_usage = key_encipherment ∷ digital_signature ∷ [];
  ext_key_usage = server_auth ∷ [];
  basic_constraints_valid = true;
  dns_names = "localhost" ∷ [];
  ip_addresses = "127.0.0.1" ∷ "::1" ∷ [];
}

-- The certificate and its key, as PEM.
unfoldable pub generate_self_signed_cert : Crypto → Result CertError (List ℕ × List ℕ)
unfolding template_of
generate_self_signed_cert c = or_error no_key c.generate_key >>= λ key.
    or_error no_serial_number (c.serial_below (2 ^ 128)) >>= λ serial.
    let template = template_of serial c.now in
    or_error not_signed (c.create_certificate template template (c.public_key key) key) >>= λ der.
    or_error not_marshalled (c.marshal_private_key key) >>= λ key_der.
    ok (c.encode_to_memory "CERTIFICATE" der, c.encode_to_memory "EC PRIVATE KEY" key_der)
