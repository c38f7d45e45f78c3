-- ===== src/Command/Meeting/Tests.antt =====
-- cmd/veilink/main.go: the client and the server of the tests, with the token of 32 zero bytes. JSON is
-- one text for the one message of each kind.
use mathlib.Core.List.{Memᴰ}
use veilink.Prelude.{◌≡◌, refl, arith, ℕ, [], ◌∷◌, ◌++◌, Bytes, some, true, ok, codes, replicate}
use veilink.Netip.{Addr}
use veilink.Encoding.Base64
use veilink.Auth.Tests.{zeros, token}
use veilink.Config.Validate.Tests.{readers, config, client, client_config, client_config_valid}
use veilink.Protocol.Control.{Json, Hello, Welcome, marshal_control}
use veilink.Protocol.Frame.{encode}
use veilink.Server.{bearer}
use veilink.Server.Authentication.{identity_of}
use veilink.Server.Handshake.{Conversation, tunnel, welcome_for, welcome_frame}
use veilink.Server.Tests.{digest, server, server_made}
use veilink.Client.{connect, hello_frame, random_session_id}
use veilink.Client.Handshake.{hello_of}
use veilink.Command.Tests.{printed, token_printed, given}
use veilink.Command.Meeting.{configured_ends_meet}

abbrev entropy : Bytes
entropy = replicate 18 0

abbrev session : Bytes
session = Base64.encode_to_string entropy

drawn : random_session_id (some entropy) ≡ some session
unfolding random_session_id
drawn = refl

abbrev show : Addr → Bytes
show a = codes "10.77.0.2"

abbrev welcome : Welcome
welcome =
    welcome_for show server.config (identity_of readers client) (hello_of client_config session)

abbrev json_hello : Json Hello
json_hello = record {
  marshal = λ v. some (codes "{}");
  unmarshal = λ b. some (hello_of client_config session);
}

abbrev json_welcome : Json Welcome
json_welcome = record { marshal = λ v. some (codes "{}"); unmarshal = λ b. some welcome }

abbrev frame : ℕ → Bytes
frame t = b'V' ∷ b'L' ∷ 1 ∷ t ∷ 0 ∷ 0 ∷ 0 ∷ 2 ∷ codes "{}"

hello_sent : hello_frame json_hello client_config session ≡ some (frame 1)
unfolding hello_frame marshal_control encode
hello_sent = refl

welcome_sent : welcome_frame json_welcome welcome ≡ some (frame 2)
unfolding welcome_frame marshal_control encode
welcome_sent = refl

abbrev talk : Conversation
talk = record {
  header = bearer ++ token;
  upgraded = true;
  first = some (true, frame 1);
  welcomed = true;
  messages = [];
}

configured_ends_meet_example :
    ((tunnel digest json_hello json_welcome show 1 talk server).sent ≡ frame 2 ∷ [])
    × (connect json_hello json_welcome client_config (record {
      dialed = true;
      session_id = random_session_id (some entropy);
      written = true;
      reply = some (true, frame 2);
    })
        ≡ record { outcome = ok welcome; is_open = true })
configured_ends_meet_example =
    configured_ends_meet readers digest json_hello json_welcome show (λ i. 256) 1 config client
      server client_config talk zeros printed entropy session (frame 1) (frame 2) (omega arith) refl
      token_printed (Memᴰ.head refl) given server_made client_config_valid refl drawn refl refl refl
      refl hello_sent welcome_sent (λ b e. refl) (λ b e. refl)
