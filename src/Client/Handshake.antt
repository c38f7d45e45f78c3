-- ===== src/Client/Handshake.antt =====
-- internal/client/client.go: what `connect` settles with the server.
use veilink.Prelude.{
  Result, ◌≡◌, err, Result, inl, inr, refl, arith, Bytes, none, some, true, false, ok, panic,
  Result-cases, Option-cases, ltb_ℤ, pos, bytes_eq_sound, bytes_eq_refl, ℕ, [], ◌∷◌, ap, ◌∙◌,
}
use veilink.Netip.{Addr}
use veilink.Auth.{Digest}
use veilink.Config.{ClientConfig}
use veilink.Protocol.Frame.{decode, encode, type_hello, type_welcome}
use veilink.Protocol.Frame.Roundtrip.{decode-encode, decode-ne-panic}
use veilink.Protocol.Control.{
  Hello, Welcome, Json, marshal_control, unmarshal_control, unmarshal-marshal_control,
  unmarshal_control-ne-panic,
}
use veilink.Server.{Server, Identity, Message, authenticate}
use veilink.Server.Handshake.{Conversation, good_hello, tunnel, welcome_for, welcome_frame}
use veilink.Server.Handshake.Requests.{
  tunnel_answers, read_hello_takes, welcome_frame_sent, good_hello-welcome_for,
  welcome_for-session_id,
}
use veilink.Client.{ClientError, Dial, connect, finish, hello_frame, check_welcome}

-- A welcome with the session's identifier and an MTU of 576 to 1500.
pub record IsAgreed (id : Bytes) (w : Welcome) : Type 0 where
  pub echoed : w.session_id ≡ id
  pub low : ltb_ℤ w.mtu (pos 576) ≡ false
  pub high : ltb_ℤ (pos 1500) w.mtu ≡ false

check_welcome-IsAgreed :
    (j : Json Welcome) (id : Bytes) (m : Message) (w : Welcome)
    → check_welcome j id m ≡ ok w
    → IsAgreed id w
unfolding check_welcome
check_welcome-IsAgreed j id none w e = absurd (ground arith)
check_welcome-IsAgreed j id (some (false, raw)) w e = absurd (ground arith)
check_welcome-IsAgreed j id (some (true, raw)) w e = elim (Result-cases (decode raw)) [
  | inl (frame, d) ↦ elim (Result-cases (unmarshal_control j frame.payload)) [
    | inl (v, u) ↦ record {
      echoed = bytes_eq_sound w.session_id id (ground (arith, d, u));
      low = ground (arith, d, u);
      high = ground (arith, d, u);
    }
    | inr bad ↦ absurd (ground (arith, d, bad))
  ]
  | inr bad ↦ absurd (ground (arith, bad))
]

check_welcome-ne-panic :
    (j : Json Welcome) (id : Bytes) (m : Message) → ¬ (check_welcome j id m ≡ panic)
unfolding check_welcome
check_welcome-ne-panic j id none e = cc
check_welcome-ne-panic j id (some (false, raw)) e = cc
check_welcome-ne-panic j id (some (true, raw)) e = elim (Result-cases (decode raw)) [
  | inl (frame, d) ↦ elim (Result-cases (unmarshal_control j frame.payload)) [
    | inl (v, u) ↦ ground (arith, d, u)
    | inr (inl (x, u)) ↦ ground (arith, d, u)
    | inr (inr u) ↦ unmarshal_control-ne-panic j frame.payload u
  ]
  | inr (inl (x, d)) ↦ ground (arith, d)
  | inr (inr d) ↦ decode-ne-panic raw d
]

IsAgreed-check_welcome :
    (j : Json Welcome) (id : Bytes) (raw payload : Bytes) (w : Welcome)
    → decode raw ≡ ok (record { typ = type_welcome; flags = 0; payload = payload })
    → unmarshal_control j payload ≡ ok w
    → IsAgreed id w
    → check_welcome j id (some (true, raw)) ≡ ok w
unfolding check_welcome
IsAgreed-check_welcome j id raw payload w framed read h =
    ground (arith, framed, read, h.echoed, h.low, h.high, bytes_eq_refl id)

abbrev pub hello_of : ClientConfig → Bytes → Hello
hello_of c id = record { client_name = c.name; session_id = id; mtu = c.mtu }

hello_frame_sent :
    (j : Json Hello) (c : ClientConfig) (id raw : Bytes)
    → hello_frame j c id ≡ some raw
    → (payload : Bytes) × (marshal_control j (hello_of c id) ≡ ok payload)
      × (decode raw ≡ ok (record { typ = type_hello; flags = 0; payload = payload }))
unfolding hello_frame
hello_frame_sent j c id raw e = elim (Result-cases (marshal_control j (hello_of c id))) [
  | inl (payload, m) ↦ elim (Result-cases (encode type_hello 0 payload)) [
    | inl (b, f) ↦
        let same : b ≡ raw = ground (arith, m, f) in
        (payload, m, decode-encode type_hello 0 payload (omega arith) (f ∙ ap ok same))
    | inr bad ↦ absurd (ground (arith, m, bad))
  ]
  | inr bad ↦ absurd (ground (arith, bad))
]

finish_opens :
    (jw : Json Welcome) (id : Bytes) (m : Message)
    → (finish (check_welcome jw id m)).is_open ≡ true
    → (w : Welcome) × ((finish (check_welcome jw id m)).outcome ≡ ok w) × IsAgreed id w
finish_opens jw id m e = elim (Result-cases (check_welcome jw id m)) [
  | inl (w, c) ↦ (w, rw c refl, check_welcome-IsAgreed jw id m w c)
  | inr (inl (x, c)) ↦ absurd (ground (arith, c))
  | inr (inr c) ↦ absurd (check_welcome-ne-panic jw id m c)
]

-- `connect` leaves a connection open only with a welcome that repeats the identifier of the session
-- and has an MTU of 576 to 1500, and it gives this welcome: every failure closes the connection.
pub connect_opens :
    (jh : Json Hello) (jw : Json Welcome) (c : ClientConfig) (d : Dial)
    → (connect jh jw c d).is_open ≡ true
    → (id : Bytes) × (w : Welcome) × (d.session_id ≡ some id)
      × ((connect jh jw c d).outcome ≡ ok w)
      × IsAgreed id w
unfolding connect
connect_opens jh jw c d e = elim (Option-cases d.session_id) [
  | inl missing ↦ absurd (ground (arith, missing))
  | inr (id, made) ↦ elim (Option-cases (hello_frame jh c id)) [
    | inl bad ↦ absurd (ground (arith, made, bad))
    | inr (frame, sent) ↦
        let (w, o, h) = finish_opens jw id d.reply (ground (arith, made, sent)) in
        (id, w, made, ground (arith, made, sent, o), h)
  ]
]

finish-is_open :
    (o : Result ClientError Welcome) (w : Welcome)
    → (finish o).outcome ≡ ok w
    → (finish o).is_open ≡ true
finish-is_open (ok v) w e = refl
finish-is_open (err x) w e = absurd (ground (arith, e))
finish-is_open panic w e = absurd (ground (arith, e))

pub connect-is_open :
    (jh : Json Hello) (jw : Json Welcome) (c : ClientConfig) (d : Dial) (w : Welcome)
    → (connect jh jw c d).outcome ≡ ok w
    → (connect jh jw c d).is_open ≡ true
unfolding connect
connect-is_open jh jw c d w e = elim (Option-cases d.session_id) [
  | inl missing ↦ absurd (ground (arith, missing))
  | inr (id, made) ↦ elim (Option-cases (hello_frame jh c id)) [
    | inl bad ↦ absurd (ground (arith, made, bad))
    | inr (frame, sent) ↦ ground (arith, made, sent, finish-is_open (check_welcome jw id d.reply) w)
  ]
]

-- Both ends in one: a client whose hello frame reaches `tunnel` under a known token opens the
-- connection, with what the server's welcome holds.
module _ (d : Digest) (jh : Json Hello) (jw : Json Welcome) (show : Addr → Bytes) where
  -- Where the frame of a client's hello, good by the server's tests, reaches `tunnel` under a token
  -- that it knows, with a server MTU of 576 to 1500, writes that succeed and JSON that reads both
  -- messages back, `tunnel` sends one welcome frame before the session, and `connect`, given this
  -- frame, leaves the connection open and gives the welcome that the server made.
  pub handshake :
      (peer_id : ℕ) (c : ClientConfig) (talk : Conversation) (s : Server) (id : Identity)
      (session hello welcome : Bytes)
      → authenticate d s talk.header ≡ some id
      → talk.upgraded ≡ true
      → talk.first ≡ some (true, hello)
      → talk.welcomed ≡ true
      → hello_frame jh c session ≡ some hello
      → welcome_frame jw (welcome_for show s.config id (hello_of c session)) ≡ some welcome
      → ((b : Bytes)
          → jh.marshal (hello_of c session) ≡ some b
          → jh.unmarshal b ≡ some (hello_of c session))
      → ((b : Bytes)
          → jw.marshal (welcome_for show s.config id (hello_of c session)) ≡ some b
          → jw.unmarshal b ≡ some (welcome_for show s.config id (hello_of c session)))
      → good_hello (hello_of c session) ≡ true
      → ltb_ℤ s.config.mtu (pos 576) ≡ false
      → ltb_ℤ (pos 1500) s.config.mtu ≡ false
      → ((tunnel d jh jw show peer_id talk s).sent ≡ welcome ∷ [])
        × (connect jh jw c (record {
          dialed = true;
          session_id = some session;
          written = true;
          reply = some (true, welcome);
        })
            ≡ record {
              outcome = ok (welcome_for show s.config id (hello_of c session));
              is_open = true;
            })
  unfolding connect
  handshake peer_id c talk s id session hello welcome known up first through sent answered reads_h
        reads_w good low high =
      let h = hello_of c session in
      let w = welcome_for show s.config id h in
      let (hp, hm, hd) = hello_frame_sent jh c session hello sent in
      let (wp, wm, wd) = welcome_frame_sent jw w welcome answered in
      let taken =
        read_hello_takes jh h hello hp hd (unmarshal-marshal_control jh h reads_h hm) good in
      let (low', high') = good_hello-welcome_for show s.config id h good low high in
      let agreed : IsAgreed session w = record {
        echoed = welcome_for-session_id show s.config id h;
        low = low';
        high = high';
      } in
      let checked =
        IsAgreed-check_welcome jw session welcome wp w wd
          (unmarshal-marshal_control jw w reads_w wm) agreed in
      (
        tunnel_answers d jh jw show peer_id talk s id h welcome known up (rw first taken) answered
            through,
        rw (sent, checked) refl,
      )
