-- ===== src/Command/Tests.antt =====
-- cmd/veilink/main.go: a machine with one configuration of a server, and what its commands do with it.
use veilink.Prelude.{
  inl, ◌∷◌, ◌≡◌, refl, Bytes, codes, [], ◌++◌, some, none, true, false, ok, err, inr,
}
use veilink.Auth.{hash_prefix}
use veilink.Config.{ServerConfig}
use veilink.Config.Load.{File, load_server, is_too_broad}
use veilink.Config.Validate.Tests.{readers, config, client, loud, loud_kept, loud_valid}
use veilink.Config.Load.Accepted.{load_server_exact}
use veilink.Server.Tests.{digest}
use veilink.Auth.Tests.{zeros, token, generated, token_hashed}
use veilink.Encoding.Hex
use veilink.Logging.{new_logger, bad_level}
use veilink.Server.Lifecycle.{loop_failed, canceled}
use veilink.Command.{choose, prints_usage, Machine, Host, run_server, run_token}
use veilink.Command.Serving.{Balanced, run_server-Balanced}

-- Of mode 0o600, read to its end.
abbrev holding : ServerConfig → File ServerConfig
holding c = record { mode = some 384; first = some c; at_end = true }

abbrev machine : ServerConfig → Machine
machine c = record {
  readers = readers;
  windows = false;
  server_file = λ path. some (holding c);
  client_file = λ path. none;
  mapped = λ s. s;
}

abbrev host : Host
host = record {
  opened = true;
  set_up = true;
  capacity = λ i. 256;
  parses = λ p. true;
  system = record { tunnel_listens = true; metrics_listens = true; ending = loop_failed canceled };
}

run_server-Balanced_example : Balanced (run_server (machine config) host (some (codes "s.yaml")))
run_server-Balanced_example = run_server-Balanced (machine config) host (some (codes "s.yaml"))

loud_loaded : load_server readers false (some (holding loud)) ≡ ok loud
unfolding is_too_broad
loud_loaded = (load_server_exact readers false (some (holding loud)) loud).1 (
  loud,
  record {
    found = holding loud;
    there = refl;
    narrow = inr (384, refl, record { others = refl; owner = refl; members = inl refl });
    first = refl;
    whole = refl;
  },
  loud_kept,
  loud_valid,
)

loud_refused : new_logger (λ s. s) loud.log ≡ err bad_level
unfolding new_logger
loud_refused = refl

helps : choose (codes "--help" ∷ []) ≡ prints_usage
unfolding choose
helps = refl

abbrev pub printed : Bytes
printed = hash_prefix ++ Hex.encode_to_string (digest.sum_256 token)

pub token_printed : run_token digest (some zeros) ≡ ok (token, printed)
unfolding run_token
token_printed = rw (generated, token_hashed digest) refl

pub given : client.token_sha256 ≡ printed
unfolding Hex.encode_to_string
given = refl
