-- ===== src/Http/Lifecycle/Listening.antt =====
-- src/http/mod.rs: which servers listen while the server is started, restarted and stopped.
use scalpel.Common.{
  false, List, ◌∷◌, Result, ok, err, none, some, if◌then◌else◌, ◌≡◌, refl, ap, ◌∙◌,
}
use scalpel.Config.{AppConfig}
use scalpel.Utils.{Package}
use scalpel.Backend.{TlsPayload}
use scalpel.Http.Acceptor.{OpenSsl, AcceptorBuilder, create_openssl_acceptor}
use scalpel.Http.Lifecycle.{
  ActixApi, Error, HttpServerLifecycle, server_config, spawn_http_server, started, spawn_with, new,
  shutdown, replaced, respawn_with_new_cert,
}

module _ (pkg : Package) (ssl : OpenSsl) (actix : ActixApi ssl) where
  open actix use {Server, IoError, Net, run, stop, listening}

  abbrev Lifecycle : Type 0
  Lifecycle = HttpServerLifecycle pkg ssl actix

  abbrev pub OneMore :
      Result (HttpServerLifecycle pkg ssl actix) (Error pkg ssl actix) × ActixApi.Net actix
      → ActixApi.Net actix
      → Type 0
  OneMore (ok life, net') net = listening net' ≡ life.actix_server ∷ listening net
  OneMore (err e, net') net = listening net' ≡ listening net

  started-OneMore :
      (ran : Result (ActixApi.Server actix) (ActixApi.IoError actix) × ActixApi.Net actix)
      (net : ActixApi.Net actix)
      → ((server : ActixApi.Server actix)
          → ran.0 ≡ ok server
          → listening ran.1 ≡ server ∷ listening net)
      → ((e : ActixApi.IoError actix) → ran.0 ≡ err e → listening ran.1 ≡ listening net)
      → OneMore (started pkg ssl actix ran) net
  started-OneMore (ok server, net') net serves fails = serves server refl
  started-OneMore (err e, net') net serves fails = fails e refl

  spawn_with-OneMore :
      (config : AppConfig) (built : Result (AcceptorBuilder ssl) (OpenSsl.Error ssl))
      (net : ActixApi.Net actix)
      → OneMore (spawn_with pkg ssl actix config built net) net
  unfolding spawn_with spawn_http_server
  spawn_with-OneMore config (err e) net = refl
  spawn_with-OneMore config (ok acceptor) net =
      let given = if config.disable_ssl then none else some acceptor in
      let c = server_config pkg config in
      started-OneMore (run c given net) net (λ server h. actix.listening-run c given net h)
        (λ e h. actix.listening-run_failed c given net h)

  -- A server that is created listens, besides those that did; if it is not, nothing changed.
  pub new-OneMore :
      (config : AppConfig) (cert : TlsPayload) (net : ActixApi.Net actix)
      → OneMore (new pkg ssl actix config cert net) net
  unfolding new
  new-OneMore config cert net =
      spawn_with-OneMore config (create_openssl_acceptor ssl config cert) net

  -- What listens after a restart, where `rest` listens besides the server.
  abbrev pub Swapped :
      Result (Unit {0}) (Error pkg ssl actix)
        × HttpServerLifecycle pkg ssl actix
        × ActixApi.Net actix
      → List (ActixApi.Server actix)
      → Type 0
  Swapped (ok _, self, net) rest = listening net ≡ self.actix_server ∷ rest
  Swapped (err e, self, net) rest = listening net ≡ rest

  replaced-Swapped :
      (self : Lifecycle)
      (ran : Result (HttpServerLifecycle pkg ssl actix) (Error pkg ssl actix) × ActixApi.Net actix)
      (net : ActixApi.Net actix) (rest : List (ActixApi.Server actix))
      → listening net ≡ rest
      → OneMore ran net
      → Swapped (replaced pkg ssl actix self ran) rest
  replaced-Swapped self (ok life, net') net rest e h = h ∙ ap (◌∷◌ life.actix_server) e
  replaced-Swapped self (err x, net') net rest e h = h ∙ e

  -- A restart stops the old server before anything else: if it succeeds the new server listens in
  -- its place, and if it fails, for the certificate or the port, no server of this program listens.
  pub respawn_with_new_cert-Swapped :
      (config : AppConfig) (cert : TlsPayload) (self : HttpServerLifecycle pkg ssl actix)
      (net : ActixApi.Net actix) (rest : List (ActixApi.Server actix))
      → ActixApi.listening actix net ≡ self.actix_server ∷ rest
      → Swapped (respawn_with_new_cert pkg ssl actix config cert self net) rest
  unfolding respawn_with_new_cert shutdown
  respawn_with_new_cert-Swapped config cert self net rest h =
      let stopped = stop false self.actix_server net in
      replaced-Swapped self
        (spawn_with pkg ssl actix config (create_openssl_acceptor ssl config cert) stopped) stopped
        rest (actix.listening-stop false self.actix_server rest net h)
        (spawn_with-OneMore config (create_openssl_acceptor ssl config cert) stopped)
