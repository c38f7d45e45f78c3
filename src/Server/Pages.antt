-- ===== src/Server/Pages.antt =====
-- internal/server/server.go: what the tunnel listener answers, page by page. `ServeMux` takes the
-- handler of the pattern that is the path, and "/" for every other path; what a pattern with a wildcard
-- matches is an argument, `wild`. The path is one that `net/http` leaves as it is.
pub mod Hidden
mod Tests
use veilink.Prelude.{
  ℕ, Bool, true, false, List, [], ◌∷◌, ◌++◌, Option, none, some, Result, ok, err, panic, ◌>>=◌,
  ◌>>◌, fail_if, Bytes, codes, bytes_eq, not, if◌then◌else◌, ◌||◌, ◌==◌,
}
use veilink.Auth.{Digest}
use veilink.Server.{Server, Identity, authenticate}
use veilink.Prelude.{lookup, bytes_Eq}

pub data Handler : Type 0 where
  health readiness tunnel decoy : Handler

-- `HandleFunc` panics where the pattern is not one, or is already there. `parses` is the library's
-- test of a pattern.
abbrev pub Mux : Type 0
Mux = List (Bytes × Handler)

abbrev pub is_taken : Option Handler → Bool
is_taken none = false
is_taken (some h) = true

abbrev pub handle_func {ℓ} : {E : Type ℓ} → (Bytes → Bool) → Bytes → Handler → Mux → Result E Mux
handle_func parses pattern h mux =
    if not (parses pattern) || is_taken (lookup pattern mux)
    then panic
    else ok (mux ++ (pattern, h) ∷ [])

-- The mux of `Run`.
pub new_mux : (Bytes → Bool) → Bytes → Result (Unit {0}) Mux
new_mux parses tunnel_path = do
  a ← handle_func parses (codes "/healthz") health []
  b ← handle_func parses (codes "/readyz") readiness a
  c ← handle_func parses tunnel_path tunnel b
  handle_func parses (codes "/") decoy c

abbrev pub has_wildcard : Bytes → Bool
has_wildcard [] = false
has_wildcard (c ∷ s) = c == b'{' || has_wildcard s

abbrev pub matches : (Bytes → Bytes → Bool) → Bytes → Bytes → Bool
matches wild pattern path =
    if has_wildcard pattern then wild pattern path else bytes_eq pattern path

-- The patterns are registered with the more specific one first.
pub handler_for : (Bytes → Bytes → Bool) → Mux → Bytes → Handler
handler_for wild [] path = decoy
handler_for wild ((pattern, h) ∷ mux) path =
    if matches wild pattern path then h else handler_for wild mux path

-- What a handler writes. `missing` is `http.NotFound`, `failure` `http.Error`, and `upgrade` stands for
-- what the library answers to an upgrade.
pub data Answer : Type 0 where
  no_content missing upgrade : Answer
  failure : ℕ → Bytes → Answer
  html : Bytes → Answer

pub record Response : Type 0 where
  pub headers : List (Bytes × Bytes)
  pub answer : Answer

-- The status line of an answer, where the code or `http.NotFound` fixes it.
abbrev pub status : Answer → Option ℕ
status no_content = some 204
status missing = some 404
status (failure n text) = some n
status (html text) = some 200
status upgrade = none

abbrev pub security_headers : List (Bytes × Bytes)
security_headers =
    (codes "X-Content-Type-Options", codes "nosniff")
    ∷ (codes "Referrer-Policy", codes "no-referrer")
    ∷ (codes "Content-Security-Policy", codes "default-src 'none'; style-src 'unsafe-inline'")
    ∷ []

abbrev decoy_page : Bytes
decoy_page =
    codes
      "<!doctype html><html lang=en><meta charset=utf-8><meta name=viewport content='width=device-width'><title>Welcome</title><body><h1>Welcome</h1><p>Service is online.</p></body></html>"

-- `ready` is whether the channel is closed, `known` whether `authenticate` knows the token.
pub answer_of : Handler → Bool → Bool → Bytes → Answer
answer_of health ready known path = no_content
answer_of readiness ready known path = if ready then no_content else failure 503 (codes "not ready")
answer_of tunnel ready known path = if known then upgrade else missing
answer_of decoy ready known path =
    if not (bytes_eq path (codes "/")) then missing else html decoy_page

-- The headers that the handler sets itself.
abbrev own_headers : Handler → Bytes → List (Bytes × Bytes)
own_headers decoy path =
    if not (bytes_eq path (codes "/"))
    then []
    else (codes "Content-Type", codes "text/html; charset=utf-8") ∷ []
own_headers _ path = []

pub serve_http : (Bytes → Bytes → Bool) → Mux → Bool → Bool → Bytes → Response
unfolding handler_for answer_of
serve_http wild mux ready known path =
    let h = handler_for wild mux path in
    record {
      headers = security_headers ++ own_headers h path;
      answer = answer_of h ready known path;
    }

abbrev is_known : Option Identity → Bool
is_known none = false
is_known (some id) = true

-- A request with this `Authorization` header.
pub respond : Digest → Server → (Bytes → Bytes → Bool) → Mux → Bool → Bytes → Bytes → Response
unfolding serve_http
respond d s wild mux ready header path =
    serve_http wild mux ready (is_known (authenticate d s header)) path
