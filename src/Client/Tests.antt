-- ===== src/Client/Tests.antt =====
-- internal/client/client.go: a packet each way between 10.77.0.2 and 8.8.4.4, and one handshake.
use veilink.Prelude.{
  ℕ, ◌*◌, lookup, ap, ℕ, ◌≡◌, ◌++◌, refl, arith, List, [], ◌∷◌, All, Bytes, none, some, true, false,
  ok, codes, pos, ltb_ℤ, if◌then◌else◌, length,
}
use veilink.Netip.{Addr}
use veilink.Config.{ClientConfig, second}
use veilink.Protocol.Frame.{encode}
use veilink.Protocol.Packet.Header.{IsPacket, ipv4_of_IsPacket}
use veilink.Protocol.Control.{Hello, Welcome, Json, marshal_control}
use veilink.Server.Tests.{digest, server}
use veilink.Config.Validate.Tests.{config, readers, client}
use veilink.Server.{Identity, packet_frame, authenticate}
use veilink.Server.Authentication.{identity_of}
use veilink.Server.Handshake.{Conversation, tunnel, welcome_for, welcome_frame, good_hello}
use veilink.Client.{Dial, connect, read_tun, queued, on_reply, reply_loop, hello_frame}
use veilink.Client.EndToEnd.{server_to_client}
use veilink.Client.Handshake.{IsAgreed, connect_opens, handshake, hello_of}
use veilink.Client.Replies.{IsAddressed, reply_loop-IsAddressed}

abbrev pub identity : Identity
identity = identity_of readers client

-- From 10.77.0.2 to 8.8.4.4, with no data, and back.
abbrev pub outward : Bytes
outward = 69 ∷ 0 ∷ 0 ∷ 20 ∷ 0 ∷ 0 ∷ 0 ∷ 0 ∷ 64 ∷ 17 ∷ 0 ∷ 0 ∷ 10 ∷ 77 ∷ 0 ∷ 2 ∷ 8 ∷ 8 ∷ 4 ∷ 4 ∷ []

abbrev pub inward : Bytes
inward = 69 ∷ 0 ∷ 0 ∷ 20 ∷ 0 ∷ 0 ∷ 0 ∷ 0 ∷ 64 ∷ 17 ∷ 0 ∷ 0 ∷ 8 ∷ 8 ∷ 4 ∷ 4 ∷ 10 ∷ 77 ∷ 0 ∷ 2 ∷ []

pub outward_shape : IsPacket outward
outward_shape = record {
  version_four = refl;
  header_full = omega arith;
  header_inside = omega arith;
  total_exact = refl;
}

outward_read : read_tun identity.addr (pos 1280) (pos 20) outward ≡ queued outward
unfolding read_tun
outward_read = rw (ipv4_of_IsPacket outward outward_shape, read_tun) refl

pub inward_shape : IsPacket inward
inward_shape = record {
  version_four = refl;
  header_full = omega arith;
  header_inside = omega arith;
  total_exact = refl;
}

server_to_client_example :
    (raw : Bytes) × (packet_frame inward ≡ ok raw)
    × (on_reply identity.addr (pos 1280) (some (true, raw)) true [] ≡ (
        if ltb_ℤ (pos 1280) (pos (length inward)) then ([], false) else ([] ++ inward ∷ [], true)))
server_to_client_example =
    server_to_client identity.addr (pos 1280) inward [] (omega arith) inward_shape refl

abbrev reply : Bytes
reply = b'V' ∷ b'L' ∷ 1 ∷ 3 ∷ 0 ∷ 0 ∷ 0 ∷ 20 ∷ inward

reply_loop-IsAddressed_example :
    (new : List Bytes) × (reply_loop identity.addr
        (pos 1280)
        ((some (true, reply), true) ∷ (none, true) ∷ [])
        []
      ≡ [] ++ new)
    × All (IsAddressed identity.addr (pos 1280)) new
reply_loop-IsAddressed_example =
    reply_loop-IsAddressed identity.addr (pos 1280) ((some (true, reply), true) ∷ (none, true) ∷ [])
      []

-- Not JSON: one text for the one message of each kind.
abbrev pub cfg : ClientConfig
cfg = record {
  name = codes "laptop";
  server_url = codes "https://vpn.example/assets/v1/stream";
  token = codes "x";
  interface = codes "veilink0";
  mtu = pos 1200;
  dial_timeout = pos (10 * second);
  keep_alive = pos (20 * second);
  reconnect = pos (2 * second);
  dns = [];
  block_ipv6 = true;
  log = record { level = codes "info"; format = codes "json" };
}

abbrev hello : Hello
hello = record { client_name = codes "laptop"; session_id = codes "s1"; mtu = pos 1200 }

abbrev pub answer : Welcome
answer = record {
  address = codes "10.77.0.2";
  gateway = codes "10.77.0.1";
  mtu = pos 1200;
  session_id = codes "s1";
}

abbrev pub json_hello : Json Hello
json_hello = record { marshal = λ v. some (codes "{}"); unmarshal = λ b. some hello }

abbrev pub json_welcome : Json Welcome
json_welcome = record { marshal = λ v. some (codes "{}"); unmarshal = λ b. some answer }

abbrev frame : ℕ → Bytes
frame t = b'V' ∷ b'L' ∷ 1 ∷ t ∷ 0 ∷ 0 ∷ 0 ∷ 2 ∷ codes "{}"

abbrev talk : Conversation
talk = record {
  header = codes "Bearer x";
  upgraded = true;
  first = some (true, frame 1);
  welcomed = true;
  messages = [];
}

abbrev show : Addr → Bytes
show a = codes "10.77.0.2"

known : authenticate digest server talk.header ≡ some identity
unfolding authenticate lookup
known = refl

hello_sent : hello_frame json_hello cfg (codes "s1") ≡ some (frame 1)
unfolding hello_frame marshal_control encode
hello_sent = refl

welcome_sent :
    welcome_frame json_welcome (welcome_for show config identity (hello_of cfg (codes "s1")))
    ≡ some (frame 2)
unfolding welcome_frame marshal_control encode
welcome_sent = refl

good : good_hello (hello_of cfg (codes "s1")) ≡ true
unfolding good_hello
good = refl

reads_welcome :
    (b : Bytes)
    → json_welcome.marshal (welcome_for show config identity hello) ≡ some b
    → json_welcome.unmarshal b ≡ some (welcome_for show config identity hello)
unfolding welcome_for
reads_welcome b e = refl

abbrev pub dial : Dial
dial = record {
  dialed = true;
  session_id = some (codes "s1");
  written = true;
  reply = some (true, frame 2);
}

opened : (connect json_hello json_welcome cfg dial).is_open ≡ true
opened =
    ap (λ c. c.is_open)
      (handshake digest json_hello json_welcome show 1 cfg talk server identity (codes "s1")
        (frame 1) (frame 2) known refl refl refl hello_sent welcome_sent (λ b e. refl) reads_welcome
        good refl refl).1

connect_opens_example :
    (id : Bytes) × (w : Welcome) × (dial.session_id ≡ some id)
    × ((connect json_hello json_welcome cfg dial).outcome ≡ ok w)
    × IsAgreed id w
connect_opens_example = connect_opens json_hello json_welcome cfg dial opened

handshake_example :
    ((tunnel digest json_hello json_welcome show 1 talk server).sent ≡ frame 2 ∷ [])
    × (connect json_hello json_welcome cfg dial ≡ record {
      outcome = ok (welcome_for show config identity (hello_of cfg (codes "s1")));
      is_open = true;
    })
handshake_example =
    handshake digest json_hello json_welcome show 1 cfg talk server identity (codes "s1") (frame 1)
      (frame 2) known refl refl refl hello_sent welcome_sent (λ b e. refl) reads_welcome good refl
      refl
