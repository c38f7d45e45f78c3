-- ===== src/Server/Pages/Tests.antt =====
-- internal/server/server.go: a probe of the tunnel without a token, and one of a page that is not there.
use veilink.Prelude.{none, ◌≡◌, refl, arith, codes, [], ◌∷◌, true, false, ok, some, lookup}
use veilink.Server.{authenticate}
use veilink.Server.Tests.{digest, server}
use veilink.Server.Pages.{
  Mux, health, readiness, tunnel, decoy, new_mux, respond, status, handler_for,
}
use veilink.Server.Pages.Hidden.{tunnel_hidden}
use veilink.Config.Validate.Tests.{path_good}

abbrev mux : Mux
mux =
    (codes "/healthz", health)
    ∷ (codes "/readyz", readiness)
    ∷ (codes "/assets/v1/stream", tunnel)
    ∷ (codes "/", decoy)
    ∷ []

mux_made : new_mux (λ p. true) server.config.tunnel_path ≡ ok mux
unfolding new_mux lookup
mux_made = refl

unknown : authenticate digest server (codes "Basic x") ≡ none
unfolding authenticate
unknown = refl

elsewhere : handler_for (λ p q. false) mux (codes "/admin") ≡ decoy
unfolding handler_for
elsewhere = refl

tunnel_hidden_example :
    (respond digest server (λ p q. false) mux true (codes "Basic x") server.config.tunnel_path
      ≡ respond digest server (λ p q. false) mux true (codes "Bearer x") (codes "/admin"))
    × (status
          (respond digest server
            (λ p q. false)
            mux
            true
            (codes "Basic x")
            server.config.tunnel_path).answer
        ≡ some 404)
tunnel_hidden_example =
    tunnel_hidden digest server (λ p. true) (λ p q. false) mux true (codes "/admin")
      (codes "Basic x") (codes "Bearer x") path_good refl mux_made unknown elsewhere (ground arith)
