-- ===== src/Server/Pages/Hidden.antt =====
-- internal/server/server.go: the tunnel among the other pages.
use veilink.Prelude.{
  ◌≡◌, ◌≢◌, ◌↔◌, refl, arith, Bool, true, false, [], ◌∷◌, Bytes, codes, bytes_eq, bytes_eq_iff, ok,
  some, none, lookup, bytes_Eq,
}
use veilink.Config.Validate.{bad_path}
use veilink.Config.Validate.Accepted.{bad_path_not}
use veilink.Auth.{Digest}
use veilink.Server.{Server, authenticate}
use veilink.Server.Pages.{
  respond, Mux, health, readiness, tunnel, decoy, new_mux, handler_for, has_wildcard, serve_http,
  answer_of, status,
}

abbrev mux_of : Bytes → Mux
mux_of p =
    (codes "/healthz", health)
    ∷ (codes "/readyz", readiness)
    ∷ (p, tunnel)
    ∷ (codes "/", decoy)
    ∷ []

new_mux-mux_of :
    (parses : Bytes → Bool) (p : Bytes)
    → bad_path p ≡ false
    → parses (codes "/healthz") ≡ true
    → parses (codes "/readyz") ≡ true
    → parses p ≡ true
    → parses (codes "/") ≡ true
    → new_mux parses p ≡ ok (mux_of p)
unfolding new_mux lookup
new_mux-mux_of parses p plain a b c d =
    let (root, healthz, readyz) = bad_path_not p plain in
    ground (
      arith,
      bytes_eq_iff p (codes "/"),
      bytes_eq_iff p (codes "/healthz"),
      bytes_eq_iff p (codes "/readyz"),
      bytes_eq_iff (codes "/healthz") p,
      bytes_eq_iff (codes "/readyz") p,
    )

new_mux_made :
    (parses : Bytes → Bool) (p : Bytes) (mux : Mux)
    → bad_path p ≡ false
    → new_mux parses p ≡ ok mux
    → mux ≡ mux_of p
unfolding new_mux lookup
new_mux_made parses p mux plain made =
    let (root, healthz, readyz) = bad_path_not p plain in
    ground (
      arith,
      bytes_eq_iff p (codes "/"),
      bytes_eq_iff (codes "/healthz") p,
      bytes_eq_iff (codes "/readyz") p,
    )

handler_for-tunnel :
    (wild : Bytes → Bytes → Bool) (p path : Bytes)
    → bad_path p ≡ false
    → has_wildcard p ≡ false
    → (handler_for wild (mux_of p) path ≡ tunnel) ↔ (path ≡ p)
unfolding handler_for
handler_for-tunnel wild p path plain literal =
    let (root, healthz, readyz) = bad_path_not p plain in
    (
      (λ e. ground (arith, literal, bytes_eq_iff p path)),
      (λ e. ground (
        arith,
        literal,
        bytes_eq_iff p path,
        bytes_eq_iff p (codes "/healthz"),
        bytes_eq_iff p (codes "/readyz"),
        bytes_eq_iff (codes "/healthz") path,
        bytes_eq_iff (codes "/readyz") path,
      )),
    )

-- The mux of an accepted path: no registration panics, and the tunnel shadows no other page.
pub new_mux_accepted :
    (parses : Bytes → Bool) (wild : Bytes → Bytes → Bool) (p : Bytes)
    → bad_path p ≡ false
    → has_wildcard p ≡ false
    → parses (codes "/healthz") ≡ true
    → parses (codes "/readyz") ≡ true
    → parses p ≡ true
    → parses (codes "/") ≡ true
    → (mux : Mux) × (new_mux parses p ≡ ok mux)
      × (handler_for wild mux (codes "/healthz") ≡ health)
      × (handler_for wild mux (codes "/readyz") ≡ readiness)
      × ((path : Bytes) → (handler_for wild mux path ≡ tunnel) ↔ (path ≡ p))
unfolding handler_for
new_mux_accepted parses wild p plain literal a b c d = (
  mux_of p,
  new_mux-mux_of parses p plain a b c d,
  refl,
  refl,
  λ path. handler_for-tunnel wild p path plain literal,
)

-- On the mux of a server whose tunnel path passes the test of the configuration and has no
-- wildcard, a request of the tunnel path that authenticate does not know is answered, with its
-- headers, as a request of any path but "/" that the decoy page serves, whatever header that one
-- has; and the answer is a 404.
pub tunnel_hidden :
    (d : Digest) (s : Server) (parses : Bytes → Bool) (wild : Bytes → Bytes → Bool) (mux : Mux)
    (ready : Bool) (q header other : Bytes)
    → bad_path s.config.tunnel_path ≡ false
    → has_wildcard s.config.tunnel_path ≡ false
    → new_mux parses s.config.tunnel_path ≡ ok mux
    → authenticate d s header ≡ none
    → handler_for wild mux q ≡ decoy
    → q ≢ codes "/"
    → (respond d s wild mux ready header s.config.tunnel_path ≡ respond d s wild mux ready other q)
      × (status (respond d s wild mux ready header s.config.tunnel_path).answer ≡ some 404)
unfolding respond serve_http answer_of
tunnel_hidden d s parses wild mux ready q header other plain literal made unknown page not_root =
    let p = s.config.tunnel_path in
    let same : mux ≡ mux_of p = new_mux_made parses p mux plain made in
    let here : handler_for wild mux p ≡ tunnel =
      rw same ((handler_for-tunnel wild p p plain literal).1 refl) in
    let apart : bytes_eq q (codes "/") ≡ false = ground (arith, bytes_eq_iff q (codes "/")) in
    (
      rw (respond, serve_http, here, unknown, page, apart) refl,
      rw (respond, serve_http, here, unknown) refl,
    )
