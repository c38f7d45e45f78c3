-- ===== src/Command/Meeting.antt =====
-- cmd/veilink/main.go, internal/server/server.go and internal/client/client.go: a client and a server
-- that are set up with one token meet.
mod Tests
use mathlib.Core.List.{Memᴰ}
use veilink.Prelude.{
  ◌≡◌, ◌∙◌, ap, sym, subst, arith, ℕ, [], ◌∷◌, ◌++◌, length, some, true, false, ok, Bytes, IsBytes,
  pos, ltb_ℤ,
}
use veilink.Netip.{Addr}
use veilink.Auth.{Digest}
use veilink.Config.{ServerConfig, ServerClient, ClientConfig, Readers}
use veilink.Config.Validate.{validate_client}
use veilink.Config.Validate.Accepted.{validate_server-IsServable}
use veilink.Protocol.Control.{Json, Hello, Welcome}
use veilink.Server.{Server, new_server, authenticate, bearer}
use veilink.Server.Authentication.{identity_of, new_server_parts}
use veilink.Server.Handshake.{Conversation, tunnel, welcome_for, welcome_frame}
use veilink.Client.{connect, hello_frame, random_session_id}
use veilink.Client.Handshake.{hello_of, handshake}
use veilink.Client.Agreement.{hello_of-good_hello}
use veilink.Command.{run_token}
use veilink.Command.Token.{run_token_lets_in}

-- The MTU of a server that was made.
served_mtu :
    (r : Readers) (capacity : ℕ → ℕ) (sc : ServerConfig) (s : Server)
    → new_server r capacity sc ≡ ok s
    → (ltb_ℤ s.config.mtu (pos 576) ≡ false) × (ltb_ℤ (pos 1500) s.config.mtu ≡ false)
served_mtu r capacity sc s made =
    let (valid, identified, same, empty) = new_server_parts r capacity sc s made in
    let m = (validate_server-IsServable r sc valid).mtu_range in
    let is : s.config.mtu ≡ pos m.value = ap (λ k. k.mtu) same ∙ m.shape in
    let low : ltb_ℤ (pos m.value) (pos 576) ≡ false = ground (arith, m.lower) in
    let high : ltb_ℤ (pos 1500) (pos m.value) ≡ false = ground (arith, m.upper) in
    (
      subst (λ v. ltb_ℤ v (pos 576) ≡ false) (sym is) low,
      subst (λ v. ltb_ℤ (pos 1500) v ≡ false) (sym is) high,
    )

-- Where runToken prints a token and a digest from 32 random bytes, a client of a server's
-- configuration has the digest, New makes the server, a client's configuration with the token
-- passes Validate, its session identifier comes from 18 random bytes, and the messages arrive and
-- are read back from JSON, tunnel answers the hello with one welcome frame, and connect opens the
-- connection with what that welcome holds for the client of the digest.
pub configured_ends_meet :
    (r : Readers) (d : Digest) (jh : Json Hello) (jw : Json Welcome) (show : Addr → Bytes)
    (capacity : ℕ → ℕ) (peer_id : ℕ) (sc : ServerConfig) (x : ServerClient) (s : Server)
    (c : ClientConfig) (talk : Conversation) (secret printed entropy session hello welcome : Bytes)
    → IsBytes secret
    → length secret ≡ 32
    → run_token d (some secret) ≡ ok (c.token, printed)
    → Memᴰ x sc.clients
    → x.token_sha256 ≡ printed
    → new_server r capacity sc ≡ ok s
    → validate_client r c ≡ []
    → length entropy ≡ 18
    → random_session_id (some entropy) ≡ some session
    → talk.header ≡ bearer ++ c.token
    → talk.upgraded ≡ true
    → talk.first ≡ some (true, hello)
    → talk.welcomed ≡ true
    → hello_frame jh c session ≡ some hello
    → welcome_frame jw (welcome_for show s.config (identity_of r x) (hello_of c session))
      ≡ some welcome
    → ((b : Bytes)
        → jh.marshal (hello_of c session) ≡ some b
        → jh.unmarshal b ≡ some (hello_of c session))
    → ((b : Bytes)
        → jw.marshal (welcome_for show s.config (identity_of r x) (hello_of c session)) ≡ some b
        → jw.unmarshal b ≡ some (welcome_for show s.config (identity_of r x) (hello_of c session)))
    → ((tunnel d jh jw show peer_id talk s).sent ≡ welcome ∷ [])
      × (connect jh jw c (record {
        dialed = true;
        session_id = random_session_id (some entropy);
        written = true;
        reply = some (true, welcome);
      })
          ≡ record {
            outcome = ok (welcome_for show s.config (identity_of r x) (hello_of c session));
            is_open = true;
          })
configured_ends_meet r d jh jw show capacity peer_id sc x s c talk secret printed entropy session
      hello welcome b n token at digest made valid n' drawn header up first through sent answered
      reads_h reads_w =
    let known : authenticate d s talk.header ≡ some (identity_of r x) =
      ap (authenticate d s) header
      ∙ run_token_lets_in r d capacity sc s x secret c.token printed b n token made at digest in
    let (low, high) = served_mtu r capacity sc s made in
    rw drawn (
      handshake d jh jw show peer_id c talk s (identity_of r x) session hello welcome known up first
        through sent answered reads_h reads_w
        (hello_of-good_hello r c entropy session valid n' drawn) low high)
