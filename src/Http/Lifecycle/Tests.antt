-- ===== src/Http/Lifecycle/Tests.antt =====
-- A toy TLS library and one port, and the theorems about the server at them.
use scalpel.Common.{
  ℕ, ◌+◌, ◌==◌, Str, true, List, [], ◌∷◌, codes, Result, ok, err, Option, none, some, if◌then◌else◌,
  ◌≡◌, refl, arith,
}
use scalpel.Utils.{Package}
use scalpel.Backend.Tests.{config, tls}
use scalpel.Http.Acceptor.{
  OpenSsl, TlsVersion, AcceptorBuilder, old_ciphers, add_chain, push_chain, push_key, revert_tls,
  finish_builder, create_openssl_acceptor,
}
use scalpel.Http.Acceptor.Configured.{IsConfigured, create_openssl_acceptor-eq-ok}
use scalpel.Http.Lifecycle.{
  ActixApi, HttpServerLifecycle, Error, digits, server_config, server_info, spawn_with, shutdown,
  respawn_with_new_cert,
}
use scalpel.Http.Lifecycle.Listening.{Swapped, respawn_with_new_cert-Swapped}

abbrev pub first_or : Str → Result ℕ (Unit {0})
first_or [] = err tt
first_or (x ∷ xs) = ok x

abbrev pub fits : Option ℕ → ℕ → Result (Unit {0}) (Unit {0})
fits none key = err tt
fits (some x509) key = ok tt

-- A certificate is a number, and a text is its chain.
abbrev pub toy_ssl : OpenSsl
toy_ssl = record {
  Error = Unit {0};
  X509 = ℕ;
  Rsa = ℕ;
  PKey = ℕ;
  mozilla_intermediate_v5 = ok tt;
  stack_from_pem = λ pem. ok pem;
  private_key_from_pem = first_or;
  from_rsa = λ rsa. ok rsa;
  set_certificate = λ x509. ok tt;
  add_extra_chain_cert = λ x509. ok tt;
  set_private_key = λ key. ok tt;
  check_private_key = fits;
  set_cipher_list = λ list. ok tt;
  set_min_proto_version = λ version. ok tt;
}

abbrev pub ToyNet : Type 0
ToyNet = ℕ × List ℕ

-- Servers are numbered, and only one can have the port.
abbrev pub bind : ToyNet → Result ℕ (Unit {0}) × ToyNet
bind (next, []) = (ok next, (next + 1, next ∷ []))
bind (next, server ∷ rest) = (err tt, (next, server ∷ rest))

abbrev pub remove : ℕ → List ℕ → List ℕ
remove server [] = []
remove server (x ∷ l) = let rest = remove server l in if server == x then l else x ∷ rest

pub bind-listening :
    (net : ToyNet) {server : ℕ} → (bind net).0 ≡ ok server → (bind net).1.1 ≡ server ∷ net.1
bind-listening (next, []) {server} h = let same : next ≡ server = cc h in rw same refl
bind-listening (next, x ∷ rest) h = absurd (cc h)

pub bind-listening_failed :
    (net : ToyNet) {e : Unit {0}} → (bind net).0 ≡ err e → (bind net).1.1 ≡ net.1
bind-listening_failed (next, []) h = absurd (cc h)
bind-listening_failed (next, x ∷ rest) h = refl

pub remove_first : (server : ℕ) (l rest : List ℕ) → l ≡ server ∷ rest → remove server l ≡ rest
remove_first server l rest h = rw h (ground arith)

abbrev pub toy_actix : ActixApi toy_ssl
toy_actix = record {
  Server = ℕ;
  IoError = Unit {0};
  Net = ToyNet;
  run = λ c acceptor net. bind net;
  stop = λ graceful server net. (net.0, remove server net.1);
  listening = λ net. net.1;
  listening-run = λ c acceptor net h. bind-listening net h;
  listening-run_failed = λ c acceptor net h. bind-listening_failed net h;
  listening-stop = λ graceful server rest net h. remove_first server net.1 rest h;
}

abbrev pub pkg : Package
pkg = record { version = codes "0.1.0"; repo_url = codes "https://github.com" }

info : server_info pkg ≡ codes "Scalpel MD@Home v0.1.0 (31) - https://github.com"
unfolding server_info digits
info = refl

address : (server_config pkg config).bind_addr ≡ codes "0.0.0.0:443"
unfolding server_config digits
address = refl

abbrev acceptor : AcceptorBuilder toy_ssl
acceptor = record {
  certificate = some 99;
  extra_chain = 114 ∷ 116 ∷ [];
  private_key = some 107;
  cipher_list = some old_ciphers;
  tlsv1_cleared = true;
  min_proto_version = some TlsVersion.tls1;
  server_preference = true;
  session_cache_server = true;
  session_cache_size = some 4096;
  verify_none = true;
  servername_callback = true;
}

creates : create_openssl_acceptor toy_ssl config tls ≡ ok acceptor
unfolding create_openssl_acceptor push_chain add_chain push_key revert_tls finish_builder
creates = refl

create_openssl_acceptor-eq-ok_example : IsConfigured toy_ssl config tls acceptor
create_openssl_acceptor-eq-ok_example = create_openssl_acceptor-eq-ok toy_ssl config tls creates

abbrev server : HttpServerLifecycle pkg toy_ssl toy_actix
server = record { actix_server = 0 }

respawn_with_new_cert-Swapped_example :
    Swapped pkg toy_ssl toy_actix
      (respawn_with_new_cert pkg toy_ssl toy_actix config tls server (1, 0 ∷ []))
      []
respawn_with_new_cert-Swapped_example =
    respawn_with_new_cert-Swapped pkg toy_ssl toy_actix config tls server (1, 0 ∷ []) [] refl

-- A certificate without text leaves no server.
loses :
    respawn_with_new_cert pkg toy_ssl toy_actix config
      (record tls { certificate = [] })
      server
      (1, 0 ∷ [])
    ≡ (err (Error.acceptor_error tt), server, (1, []))
unfolding respawn_with_new_cert spawn_with shutdown create_openssl_acceptor push_chain push_key
loses = refl
