-- ===== src/Server/Handshake.antt =====
-- internal/server/server.go: `tunnel`, from the request to the registration, and its end.
pub mod Requests
use veilink.Prelude.{
  ◌==◌, if◌then◌else◌, not, length, ltb, ◌&&◌, codes, bytes_eq, not, ℕ, Bool, List, [], ◌∷◌, Option,
  none, some, true, false, ok, err, panic, Bytes, ltb_ℤ, pos, min_ℤ,
}
use veilink.Auth.{Digest}
use veilink.Config.{ServerConfig}
use veilink.Core.Hub.{Peer, register, unregister}
use veilink.Metrics.{add}
use veilink.Protocol.Frame.{encode, decode, type_hello, type_welcome}
use veilink.Protocol.Control.{Hello, Welcome, Json, marshal_control, unmarshal_control}
use veilink.Server.{
  Digest, ServerConfig, Server, Identity, Message, authenticate, on_metrics, read_loop,
}
use veilink.Netip.{Addr}

-- The tests on the hello: an identifier of 1 to 128 bytes and an MTU of 576 to 1500.
unfoldable pub good_hello : Hello → Bool
good_hello h =
    not (bytes_eq h.session_id (codes ""))
    && not (ltb 128 (length h.session_id))
    && not (ltb_ℤ h.mtu (pos 576))
    && not (ltb_ℤ (pos 1500) h.mtu)

pub read_hello : Json Hello → Message → Option Hello
read_hello j none = none
read_hello j (some (false, raw)) = none
read_hello j (some (true, raw)) = elim (decode raw) [
  | ok frame ↦
      if not (frame.typ == type_hello) then none else (elim (unmarshal_control j frame.payload) [
        | ok hello ↦ if good_hello hello then some hello else none
        | err e ↦ none
        | panic ↦ none
      ])
  | err e ↦ none
  | panic ↦ none
]

-- `String` of an address is a parameter.
unfoldable pub welcome_for : (Addr → Bytes) → ServerConfig → Identity → Hello → Welcome
welcome_for show c id hello = record {
  address = show id.addr;
  gateway = c.gateway;
  mtu = min_ℤ c.mtu hello.mtu;
  session_id = hello.session_id;
}

unfoldable pub welcome_frame : Json Welcome → Welcome → Option Bytes
welcome_frame j w = elim (marshal_control j w) [
  | ok payload ↦ (elim (encode type_welcome 0 payload) [
    | ok b ↦ some b
    | err e ↦ none
    | panic ↦ none
  ])
  | err e ↦ none
  | panic ↦ none
]

-- How a request ends.
pub data Outcome : Type 0 where
  not_found : Outcome  -- HTTP 404
  dropped : Outcome  -- the connection is closed with no answer of its own
  at_capacity : Outcome  -- closed with `StatusTryAgainLater`
  served : Outcome

-- What the connection and the device do in one request: whether the upgrade and the write of the
-- welcome succeed, the first message, and what the loop reads.
pub record Conversation : Type 0 where
  pub header : Bytes
  pub upgraded : Bool
  pub first : Message
  pub welcomed : Bool
  pub messages : List (Message × Bool)

-- What a session did: the server after it, how it ended and the frames that it sent first.
pub record Session : Type 0 where
  pub server : Server
  pub outcome : Outcome
  pub sent : List Bytes

abbrev peer_of : Identity → ℕ → Peer
peer_of id peer_id = record { id = peer_id; name = id.name; addr = id.addr }

-- The loop runs between the registration and the deferred `Unregister`. `peer_id` is the pointer of
-- the new peer.
serve : Identity → ℕ → List (Message × Bool) → Bytes → Server → Session
serve id peer_id messages frame s =
    let peer = peer_of id peer_id in
    let r = register s.hub peer in
    if not r.1
    then record { server = record s { hub = r.0 }; outcome = at_capacity; sent = frame ∷ [] }
    else let s' = read_loop id messages (record s { hub = r.0 }) in
      record {
        server = record s' { hub = unregister s'.hub peer };
        outcome = served;
        sent = frame ∷ [];
      }

abbrev closed : Server → Session
closed s = record { server = s; outcome = dropped; sent = [] }

pub tunnel :
    Digest → Json Hello → Json Welcome → (Addr → Bytes) → ℕ → Conversation → Server → Session
unfolding serve
tunnel d jh jw show peer_id c s = elim (authenticate d s c.header) [
  | none ↦ record {
    server = on_metrics (λ m. record m { auth_rejected = add m.auth_rejected 1 }) s;
    outcome = not_found;
    sent = [];
  }
  | some id ↦ if not c.upgraded then closed s else (elim (read_hello jh c.first) [
    | none ↦ closed s
    | some hello ↦ (elim (welcome_frame jw (welcome_for show s.config id hello)) [
      | none ↦ closed s
      | some frame ↦ if not c.welcomed then closed s else serve id peer_id c.messages frame s
    ])
  ])
]
