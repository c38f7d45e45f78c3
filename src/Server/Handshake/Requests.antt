-- ===== src/Server/Handshake/Requests.antt =====
-- internal/server/server.go: what one request to `tunnel` may do.
use veilink.Prelude.{
  Bool, ◌≡◌, ◌⊎◌, ◌↔◌, ◌++◌, inl, inr, refl, sym, arith, List, [], ◌∷◌, All, Bytes, ℕ, none, some,
  true, false, Option-cases, Result-cases, ltb_ℤ, pos, ok, ap, ◌∙◌, Bool-cases,
}
use mathlib.Core.List.{append-nil}
use veilink.Protocol.Frame.{decode, encode, type_hello, type_welcome}
use veilink.Protocol.Frame.Roundtrip.{decode-encode}
use veilink.Config.{ServerConfig}
use veilink.Netip.{Addr}
use veilink.Auth.{Digest}
use veilink.Core.Hub.{register}
use veilink.Protocol.Control.{Hello, Welcome, Json, marshal_control, unmarshal_control}
use veilink.Server.{Server, Identity, Message, authenticate}
use veilink.Server.Spoofing.{IsOwn, read_loop-IsOwn}
use veilink.Server.Handshake.{
  Conversation, not_found, tunnel, serve, peer_of, read_hello, welcome_for, welcome_frame,
  good_hello,
}

module _ (d : Digest) (jh : Json Hello) (jw : Json Welcome) (show : Addr → Bytes) where
  -- `tunnel` answers that the page is not found if and only if it does not know the token.
  pub tunnel_not_found :
      (peer_id : ℕ) (c : Conversation) (s : Server)
      → ((tunnel d jh jw show peer_id c s).outcome ≡ not_found) ↔ (authenticate d s c.header ≡ none)
  unfolding tunnel serve
  tunnel_not_found peer_id c s = (ground arith, ground arith)

  serve-IsOwn :
      (id : Identity) (peer_id : ℕ) (ms : List (Message × Bool)) (frame : Bytes) (s : Server)
      → (new : List Bytes) × ((serve id peer_id ms frame s).server.tun ≡ s.tun ++ new)
        × All (IsOwn s.config.mtu id) new
  unfolding serve
  serve-IsOwn id peer_id ms frame s =
      let h = (register s.hub (peer_of id peer_id)).0 in
      let (new, put, own) = read_loop-IsOwn id ms (record s { hub = h }) in
      elim (Bool-cases (register s.hub (peer_of id peer_id)).1) [
        | inl in_registry ↦ (new, rw in_registry put, own)
        | inr refused ↦ ([], rw refused (sym (append-nil s.tun)), tt)
      ]

  -- What a request to `tunnel` adds to what was written to the device is nothing, or, where its
  -- token is known, IPv4 packets from the address of the token's identity within the configured
  -- MTU.
  pub tunnel-IsOwn :
      (peer_id : ℕ) (c : Conversation) (s : Server)
      → (new : List Bytes) × ((tunnel d jh jw show peer_id c s).server.tun ≡ s.tun ++ new)
        × ((new ≡ [])
            ⊎ ((id : Identity) × (authenticate d s c.header ≡ some id)
                × All (IsOwn s.config.mtu id) new))
  unfolding tunnel
  tunnel-IsOwn peer_id c s = elim (Option-cases (authenticate d s c.header)) [
    | inl unknown ↦ ([], rw (unknown, tunnel) (sym (append-nil s.tun)), inl refl)
    | inr (id, known) ↦ elim (Bool-cases c.upgraded) [
      | inr plain ↦ ([], rw (known, plain, tunnel) (sym (append-nil s.tun)), inl refl)
      | inl up ↦ elim (Option-cases (read_hello jh c.first)) [
        | inl bad ↦ ([], rw (known, up, bad, tunnel) (sym (append-nil s.tun)), inl refl)
        | inr (hello, good) ↦
            elim (Option-cases (welcome_frame jw (welcome_for show s.config id hello))) [
              | inl bad ↦ ([], rw (known, up, good, bad, tunnel) (sym (append-nil s.tun)), inl refl)
              | inr (frame, sent) ↦ elim (Bool-cases c.welcomed) [
                | inr lost ↦ (
                  [],
                  rw (known, up, good, sent, lost, tunnel) (sym (append-nil s.tun)),
                  inl refl,
                )
                | inl through ↦
                    let (new, put, own) = serve-IsOwn id peer_id c.messages frame s in
                    (new, rw (known, up, good, sent, through, tunnel) put, inr (id, known, own))
              ]
            ]
      ]
    ]
  ]

  serve-sent :
      (id : Identity) (peer_id : ℕ) (ms : List (Message × Bool)) (frame : Bytes) (s : Server)
      → (serve id peer_id ms frame s).sent ≡ frame ∷ []
  unfolding serve
  serve-sent id peer_id ms frame s = elim (Bool-cases (register s.hub (peer_of id peer_id)).1) [
    | inl in_registry ↦ rw in_registry refl
    | inr refused ↦ rw refused refl
  ]

  -- What `tunnel` sends to a client that it knows and whose hello it takes.
  pub tunnel_answers :
      (peer_id : ℕ) (c : Conversation) (s : Server) (id : Identity) (hello : Hello) (frame : Bytes)
      → authenticate d s c.header ≡ some id
      → c.upgraded ≡ true
      → read_hello jh c.first ≡ some hello
      → welcome_frame jw (welcome_for show s.config id hello) ≡ some frame
      → c.welcomed ≡ true
      → (tunnel d jh jw show peer_id c s).sent ≡ frame ∷ []
  unfolding tunnel
  tunnel_answers peer_id c s id hello frame known up good sent through =
      rw (known, up, good, sent, through, tunnel) (serve-sent id peer_id c.messages frame s)

-- A hello frame whose message JSON reads back, with an identifier and an MTU in range, is taken.
pub read_hello_takes :
    (j : Json Hello) (h : Hello) (raw payload : Bytes)
    → decode raw ≡ ok (record { typ = type_hello; flags = 0; payload = payload })
    → unmarshal_control j payload ≡ ok h
    → good_hello h ≡ true
    → read_hello j (some (true, raw)) ≡ some h
unfolding read_hello
read_hello_takes j h raw payload framed read good = ground (arith, framed, read, good)

-- A welcome frame decodes to the message that was marshalled.
pub welcome_frame_sent :
    (j : Json Welcome) (w : Welcome) (raw : Bytes)
    → welcome_frame j w ≡ some raw
    → (payload : Bytes) × (marshal_control j w ≡ ok payload)
      × (decode raw ≡ ok (record { typ = type_welcome; flags = 0; payload = payload }))
unfolding welcome_frame
welcome_frame_sent j w raw e = elim (Result-cases (marshal_control j w)) [
  | inl (payload, m) ↦ elim (Result-cases (encode type_welcome 0 payload)) [
    | inl (b, f) ↦
        let same : b ≡ raw = ground (arith, m, f) in
        (payload, m, decode-encode type_welcome 0 payload (omega arith) (f ∙ ap ok same))
    | inr bad ↦ absurd (ground (arith, m, bad))
  ]
  | inr bad ↦ absurd (ground (arith, bad))
]

-- A good hello, and a configuration with an MTU of 576 to 1500, give a welcome with such an MTU.
pub good_hello-welcome_for :
    (show : Addr → Bytes) (c : ServerConfig) (id : Identity) (h : Hello)
    → good_hello h ≡ true
    → ltb_ℤ c.mtu (pos 576) ≡ false
    → ltb_ℤ (pos 1500) c.mtu ≡ false
    → (ltb_ℤ (welcome_for show c id h).mtu (pos 576) ≡ false)
      × (ltb_ℤ (pos 1500) (welcome_for show c id h).mtu ≡ false)
unfolding good_hello welcome_for
good_hello-welcome_for show c id h good low high = (ground arith, ground arith)

pub welcome_for-session_id :
    (show : Addr → Bytes) (c : ServerConfig) (id : Identity) (h : Hello)
    → (welcome_for show c id h).session_id ≡ h.session_id
unfolding welcome_for
welcome_for-session_id show c id h = refl
