-- ===== src/Server/Tests.antt =====
-- internal/server/server.go: the server of one client, a session of it and a token that it knows.
use mathlib.Core.List.{Memᴰ}
use veilink.Prelude.{
  pos, All, ◌++◌, ◌↔◌, insert, ◌∷◌, [], Bytes, refl, ok, ◌≡◌, arith, List, true, codes, some, none,
}
use veilink.Auth.{Digest, parse_hash}
use veilink.Encoding.Hex
use veilink.Config.{ServerClient}
use veilink.Config.Validate.Tests.{readers, config, config_valid, client}
use veilink.Core.Hub.{new_hub}
use veilink.Metrics.{zero_counters}
use veilink.Server.{
  Server, Message, bytes, fault, packet_loop, new_server, identities, authenticate, on_message,
  read_loop, bearer,
}
use veilink.Server.Spoofing.{IsOwn, IsPermitted, read_loop-IsOwn, on_message_exact}
use veilink.Server.Routing.{IsRouted, packet_loop-IsRouted}
use veilink.Server.Handshake.{Conversation}
use veilink.Protocol.Control.{Json}
use veilink.Server.Authentication.{authenticate_exact, identity_of}

-- Not SHA-256: the digest of every token is the client's.
abbrev stand_in : Bytes
stand_in =
    0 ∷ 1 ∷ 2 ∷ 3 ∷ 4 ∷ 5 ∷ 6 ∷ 7 ∷ 8 ∷ 9 ∷ 10 ∷ 11 ∷ 12 ∷ 13 ∷ 14 ∷ 15 ∷ 0 ∷ 1 ∷ 2 ∷ 3 ∷ 4 ∷ 5 ∷ 6
    ∷ 7 ∷ 8 ∷ 9 ∷ 10 ∷ 11 ∷ 12 ∷ 13 ∷ 14 ∷ 15 ∷ []

abbrev pub digest : Digest
digest = record {
  sum_256 = λ b. stand_in;
  length-sum_256 = λ b. refl;
  sum_256-IsBytes = λ b. omega arith;
}

abbrev pub server : Server
server = record {
  config = config;
  hub = new_hub (λ i. 256) zero_counters 256;
  ident = (stand_in, identity_of readers client) ∷ [];
  tun = [];
}

pub server_made : new_server readers (λ i. 256) config ≡ ok server
unfolding new_server identities parse_hash Hex.decode_string insert
server_made = rw (config_valid, new_server) refl

authenticate_exact_example :
    (authenticate digest server (codes "Bearer x") ≡ some (identity_of readers client)) ↔ (
      (token : Bytes) × (x : ServerClient) × (codes "Bearer x" ≡ bearer ++ token)
      × Memᴰ x config.clients
      × (parse_hash x.token_sha256 ≡ ok (digest.sum_256 token))
      × (identity_of readers client ≡ identity_of readers x))
authenticate_exact_example =
    authenticate_exact readers digest (λ i. 256) config server (codes "Bearer x")
      (identity_of readers client) server_made

-- A packet frame from 10.77.0.2.
abbrev message : Message
message = some (
  true,
  b'V' ∷ b'L' ∷ 1 ∷ 3 ∷ 0 ∷ 0 ∷ 0 ∷ 20 ∷ 69 ∷ 0 ∷ 0 ∷ 20 ∷ 0 ∷ 0 ∷ 0 ∷ 0 ∷ 64 ∷ 17 ∷ 0 ∷ 0 ∷ 10 ∷ 77
      ∷ 0 ∷ 2 ∷ 8 ∷ 8 ∷ 4 ∷ 4 ∷ [],
)

on_message_exact_example :
    ((on_message (identity_of readers client) message true server).1 ≡ true) ↔ (
      (raw payload : Bytes) × (message ≡ some (true, raw))
      × IsPermitted server (identity_of readers client) raw payload
      × (true ≡ true))
on_message_exact_example = on_message_exact (identity_of readers client) message true server

read_loop-IsOwn_example :
    (new : List Bytes) × ((read_loop
        (identity_of readers client)
        ((message, true) ∷ (none, true) ∷ [])
        server).tun
      ≡ [] ++ new)
    × All (IsOwn server.config.mtu (identity_of readers client)) new
read_loop-IsOwn_example =
    read_loop-IsOwn (identity_of readers client) ((message, true) ∷ (none, true) ∷ []) server

abbrev packet : Bytes
packet = 69 ∷ 0 ∷ 0 ∷ 20 ∷ 0 ∷ 0 ∷ 0 ∷ 0 ∷ 64 ∷ 17 ∷ 0 ∷ 0 ∷ 8 ∷ 8 ∷ 4 ∷ 4 ∷ 10 ∷ 77 ∷ 0 ∷ 2 ∷ []

-- One good packet for a peer that is not there, and one read that fails.
packet_loop-IsRouted_example :
    (new : List Bytes) × ((packet_loop
          (bytes (pos 0) [] ∷ bytes (pos 20) packet ∷ fault ∷ [])
          server).hub.queues
        1
      ≡ server.hub.queues 1 ++ new)
    × All (IsRouted server.hub 1) new
packet_loop-IsRouted_example =
    packet_loop-IsRouted (bytes (pos 0) [] ∷ bytes (pos 20) packet ∷ fault ∷ []) server 1

-- JSON that reads nothing and writes nothing.
abbrev no_json : {A : Type 0} → Json A
no_json = record { marshal = λ v. none; unmarshal = λ b. none }

abbrev talk : Conversation
talk = record {
  header = codes "Bearer x";
  upgraded = true;
  first = message;
  welcomed = true;
  messages = (message, true) ∷ [];
}
