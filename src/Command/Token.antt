-- ===== src/Command/Token.antt =====
-- cmd/veilink/main.go: a token that `runToken` prints lets its holder in.
use mathlib.Core.List.{Memᴰ}
use veilink.Prelude.{◌≡◌, refl, ◌∙◌, ap, arith, ℕ, Bytes, IsBytes, length, ◌++◌, some, ok}
use veilink.Auth.{Digest, parse_hash}
use veilink.Auth.Tokens.{token_pair}
use veilink.Config.{ServerConfig, ServerClient, Readers}
use veilink.Server.{Server, new_server, authenticate, bearer}
use veilink.Server.Authentication.{identity_of, authenticate_exact}
use veilink.Command.{run_token}

printed_hash :
    (d : Digest) (raw token printed : Bytes)
    → IsBytes raw
    → length raw ≡ 32
    → run_token d (some raw) ≡ ok (token, printed)
    → parse_hash printed ≡ ok (d.sum_256 token)
unfolding run_token
printed_hash d raw token printed bytes n e =
    let (t, h, made, valid, hashed, parsed, matches) = token_pair d raw bytes n in
    ground (arith, made, hashed, parsed)

-- Where runToken prints a token and a digest, a server that is made from a configuration with a
-- client of that digest knows the holder of the token as that client.
pub run_token_lets_in :
    (r : Readers) (d : Digest) (capacity : ℕ → ℕ) (c : ServerConfig) (s : Server) (x : ServerClient)
    (raw token printed : Bytes)
    → IsBytes raw
    → length raw ≡ 32
    → run_token d (some raw) ≡ ok (token, printed)
    → new_server r capacity c ≡ ok s
    → Memᴰ x c.clients
    → x.token_sha256 ≡ printed
    → authenticate d s (bearer ++ token) ≡ some (identity_of r x)
run_token_lets_in r d capacity c s x raw token printed bytes n made server at given =
    (authenticate_exact r d capacity c s (bearer ++ token) (identity_of r x) server).1 (
      token,
      x,
      refl,
      at,
      ap parse_hash given ∙ printed_hash d raw token printed bytes n made,
      refl,
    )
