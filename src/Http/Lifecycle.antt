-- ===== src/Http/Lifecycle.antt =====
-- src/http/mod.rs: the settings of the actix server, and its start, restart and stop.
pub mod Listening
pub mod Tests
use Prim.Native.Nat.{◌/◌}
use scalpel.Common.{
  ℕ, zero, suc, ◌+◌, ◌%◌, Str, Bool, true, false, not, List, [], ◌∷◌, ◌++◌, Result, ok, err,
  map_err, Option, none, some, codes, ltb, if◌then◌else◌, ◌≡◌,
}
use scalpel.Config.{AppConfig}
use scalpel.Utils.{Package, prog_name}
use scalpel.Backend.{TlsPayload, spec}
use scalpel.Http.Acceptor.{OpenSsl, AcceptorBuilder, create_openssl_acceptor}

-- `Display` of a `u16`, which has at most five digits.
unfoldable pub digits : ℕ → ℕ → Str
digits zero n = []
digits (suc more) n =
    let left = digits more (n / 10) in (if ltb n 10 then [] else left) ++ (48 + n % 10) ∷ []

abbrev pub show_u16 : ℕ → Str
show_u16 n = digits 5 n

-- The handlers that routes lead to.
pub data Service : Type 0 where
  to_md to_prom to_not_found : Service

-- What the builder of the server is given.
pub record ServerConfig : Type 0 where
  pub default_headers : List (Str × Str)
  pub routes : List (Str × Service)
  pub default_service : Service
  pub keep_alive : ℕ
  pub shutdown_timeout : ℕ
  pub disable_signals : Bool
  pub workers : Option ℕ
  pub bind_addr : Str

-- `actix_web`: servers that listen. A server runs with TLS if it is given an acceptor.
pub record ActixApi (ssl : OpenSsl) : Type 1 where
  pub Server : Type 0
  pub IoError : Type 0
  pub Net : Type 0
  pub run : ServerConfig → Option (AcceptorBuilder ssl) → Net → Result Server IoError × Net
  pub stop : Bool → Server → Net → Net
  -- the servers that listen, the last one started first
  pub listening : Net → List Server
  pub listening-run :
      (c : ServerConfig) (acceptor : Option (AcceptorBuilder ssl)) (net : Net) {server : Server}
      → (run c acceptor net).0 ≡ ok server
      → listening (run c acceptor net).1 ≡ server ∷ listening net
  pub listening-run_failed :
      (c : ServerConfig) (acceptor : Option (AcceptorBuilder ssl)) (net : Net) {e : IoError}
      → (run c acceptor net).0 ≡ err e
      → listening (run c acceptor net).1 ≡ listening net
  pub listening-stop :
      (graceful : Bool) (server : Server) (rest : List Server) (net : Net)
      → listening net ≡ server ∷ rest
      → listening (stop graceful server net) ≡ rest

unfoldable pub server_info : Package → Str
server_info pkg =
    prog_name
    ++ codes " v"
    ++ pkg.version
    ++ codes " ("
    ++ show_u16 spec
    ++ codes ") - "
    ++ pkg.repo_url

unfoldable pub headers : Package → Bool → List (Str × Str)
unfolding server_info
headers pkg ad_headers =
    (codes "X-Content-Type-Options", codes "nosniff")
    ∷ (codes "Access-Control-Allow-Origin", codes "*")
    ∷ (codes "Access-Control-Expose-Headers", codes "*")
    ∷ (codes "Access-Control-Expose-Methods", codes "GET")
    ∷ (codes "Cache-Control", codes "public, max-age=1209600")
    ∷ (codes "Timing-Allow-Origin", codes "*")
    ∷ (if ad_headers
        then (codes "Server", server_info pkg)
          ∷ (codes "X-Powered-By", codes "Actix Web")
          ∷ (codes "X-Version", pkg.version)
          ∷ []
        else [])

-- The routes, all of them for `GET`.
abbrev pub routes : List (Str × Service)
routes =
    (codes "/{token}/{archive_type}/{chap_hash}/{image}", to_md)
    ∷ (codes "/{archive_type}/{chap_hash}/{image}", to_md)
    ∷ (codes "/prometheus", to_prom)
    ∷ []

unfoldable pub server_config : Package → AppConfig → ServerConfig
unfolding headers digits
server_config pkg config = record {
  default_headers = headers pkg (not config.disable_ad_headers);
  routes = routes;
  default_service = to_not_found;
  keep_alive = config.keep_alive;
  shutdown_timeout = 60;
  disable_signals = true;
  workers = config.worker_threads;
  bind_addr = config.bind_address ++ codes ":" ++ show_u16 config.port;
}

module _ (pkg : Package) (ssl : OpenSsl) (actix : ActixApi ssl) where
  open actix use {Server, IoError, Net, run, stop}

  -- `Error`, with `PortBindError` as the error that it holds.
  pub data Error : Type 0 where
    acceptor_error : OpenSsl.Error ssl → Error
    port_error : ActixApi.IoError actix → Error

  unfoldable pub spawn_http_server :
      AppConfig
      → AcceptorBuilder ssl
      → ActixApi.Net actix
      → Result (ActixApi.Server actix) (ActixApi.IoError actix) × ActixApi.Net actix
  spawn_http_server config acceptor net =
      run (server_config pkg config) (if config.disable_ssl then none else some acceptor) net

  pub record HttpServerLifecycle : Type 0 where
    pub actix_server : ActixApi.Server actix

  abbrev Started : Type 0
  Started = Result HttpServerLifecycle Error × ActixApi.Net actix

  -- What starting a server gave.
  abbrev pub started :
      Result (ActixApi.Server actix) (ActixApi.IoError actix) × ActixApi.Net actix → Started
  started (ok server, net) = (ok (record { actix_server = server }), net)
  started (err e, net) = (err (port_error e), net)

  unfoldable pub spawn_with :
      AppConfig → Result (AcceptorBuilder ssl) (OpenSsl.Error ssl) → ActixApi.Net actix → Started
  unfolding spawn_http_server
  spawn_with config (err e) net = (err (acceptor_error e), net)
  spawn_with config (ok acceptor) net = started (spawn_http_server config acceptor net)

  -- `HttpServerLifecycle::new`
  unfoldable pub new : AppConfig → TlsPayload → ActixApi.Net actix → Started
  unfolding spawn_with
  new config cert net = spawn_with config (create_openssl_acceptor ssl config cert) net

  unfoldable pub shutdown : Bool → HttpServerLifecycle → ActixApi.Net actix → ActixApi.Net actix
  shutdown graceful self net = stop graceful self.actix_server net

  -- The handle is replaced only by a server that was started.
  abbrev pub replaced :
      HttpServerLifecycle
      → Started
      → Result (Unit {0}) Error × HttpServerLifecycle × ActixApi.Net actix
  replaced self (ok new_self, net) = (ok tt, new_self, net)
  replaced self (err e, net) = (err e, self, net)

  unfoldable pub respawn_with_new_cert :
      AppConfig
      → TlsPayload
      → HttpServerLifecycle
      → ActixApi.Net actix
      → Result (Unit {0}) Error × HttpServerLifecycle × ActixApi.Net actix
  unfolding shutdown spawn_with
  respawn_with_new_cert config cert self net =
      replaced self
        (spawn_with config (create_openssl_acceptor ssl config cert) (shutdown false self net))
