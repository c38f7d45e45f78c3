-- ===== src/Command/Clients/Tests.antt =====
-- cmd/veilink/main.go: a client with one DNS server, from its file to its routes.
use veilink.Prelude.{
  inl, ◌≡◌, ◌∷◌, ◌++◌, [], refl, List, All, codes, map, none, some, true, false, ok, inr,
}
use veilink.Netip.{v4}
use veilink.Config.{ClientConfig}
use veilink.Config.Load.{File, load_client, is_too_broad}
use veilink.Config.Load.Accepted.{load_client_exact}
use veilink.Config.Validate.Tests.{readers, with_dns, with_dns_kept, with_dns_valid}
use veilink.Client.{Dial}
use veilink.Client.Tests.{dial, json_hello, json_welcome}
use veilink.Client.Run.{Attempt, run, attempt}
use veilink.Client.Dialing.{setups}
use veilink.Client.Dialing.Targets.{IsReady}
use veilink.Client.Dialing.Tests.{network, ipv4_only, server_resolved}
use veilink.Logging.{new_logger}
use veilink.Command.{Machine, ClientRun, run_client, default_client_config}
use veilink.Command.Clients.{run_client-IsReady}

abbrev file : File ClientConfig
file = record { mode = some 384; first = some with_dns; at_end = true }

abbrev machine : Machine
machine = record {
  readers = readers;
  windows = false;
  server_file = λ path. none;
  client_file = λ path. some file;
  mapped = λ s. s;
}

loaded : load_client readers false (some file) ≡ ok with_dns
unfolding is_too_broad
loaded = (load_client_exact readers false (some file) with_dns).1 (
  with_dns,
  record {
    found = file;
    there = refl;
    narrow = inr (384, refl, record { others = refl; owner = refl; members = inl refl });
    first = refl;
    whole = refl;
  },
  with_dns_kept,
  with_dns_valid,
)

-- One session, which the end of the context follows.
abbrev rounds : List (Dial × Attempt)
rounds =
    (
      dial,
      record {
        welcome = none;
        opened = true;
        named = true;
        is_set_up = true;
        stopped = true;
        slept = true;
      },
    )
    ∷ []

abbrev done : ClientRun
done = record {
  config = with_dns;
  server_ip = v4 16909060;
  state = (run readers with_dns (map (attempt json_hello json_welcome with_dns) rounds)).0;
  ending = (run readers with_dns (map (attempt json_hello json_welcome with_dns) rounds)).1;
}

ran :
    run_client machine network json_hello json_welcome rounds (some (codes "client.yaml")) ≡ ok done
unfolding run_client new_logger
ran = rw (loaded, server_resolved) refl

run_client-IsReady_example :
    All IsReady (setups readers with_dns (codes "veilink0") (v4 16909060) (done.state, done.ending))
run_client-IsReady_example =
    run_client-IsReady machine network json_hello json_welcome rounds (codes "client.yaml")
      (codes "veilink0") done ipv4_only ran

on_windows :
    default_client_config true (some (codes "C:"))
    ≡ codes "C:" ++ (92 ∷ codes "Veilink" ++ (92 ∷ codes "client.yaml"))
unfolding default_client_config
on_windows = refl
