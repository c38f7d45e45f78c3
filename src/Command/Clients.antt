-- ===== src/Command/Clients.antt =====
-- cmd/veilink/main.go with internal/client/client.go: what `runClient` sets up.
mod Tests
use veilink.Prelude.{
  ◌∙◌, ◌≡◌, refl, sym, subst, ap, arith, List, [], map, Option, none, some, All, Bytes, ok,
  Result-cases, Option-cases, inl, inr,
}
use veilink.Config.{ClientConfig}
use veilink.Config.Validate.{validate_client}
use veilink.Config.Load.{load_client}
use veilink.Config.Load.Accepted.{load_client_exact}
use veilink.Logging.{new_logger}
use veilink.Protocol.Control.{Hello, Welcome, Json}
use veilink.Client.{Dial}
use veilink.Client.Run.{Attempt, run, attempt}
use veilink.Client.Dialing.{Network, resolve_server_ipv4, setups}
use veilink.Client.Dialing.Targets.{IsReady, ResolvesIpv4, setups_of_run}
use veilink.Command.{Machine, ClientRun, run_client}

-- A run of the client that gets as far as the loop: its configuration is valid, its server's name is
-- resolved, and what was done is what `Run` does.
record Ran (m : Machine) (n : Network) (jh : Json Hello) (jw : Json Welcome)
    (rounds : List (Dial × Attempt)) (done : ClientRun) : Type 0 where
  valid : validate_client m.readers done.config ≡ []
  found : resolve_server_ipv4 m.readers n done.config.server_url ≡ some done.server_ip
  result :
      (done.state, done.ending) ≡ run m.readers done.config (map (attempt jh jw done.config) rounds)

run_client-Ran :
    (m : Machine) (n : Network) (jh : Json Hello) (jw : Json Welcome)
    (rounds : List (Dial × Attempt)) (path : Bytes) (done : ClientRun)
    → run_client m n jh jw rounds (some path) ≡ ok done
    → Ran m n jh jw rounds done
unfolding run_client
run_client-Ran m n jh jw rounds path done e =
    elim (Result-cases (load_client m.readers m.windows (m.client_file path))) [
      | inr bad ↦ absurd (ground (arith, bad, e))
      | inl (c, loaded) ↦ elim (Result-cases (new_logger m.mapped c.log)) [
        | inr bad ↦ absurd (ground (arith, loaded, bad, e))
        | inl (logger, logs) ↦ elim (Option-cases (resolve_server_ipv4 m.readers n c.server_url)) [
          | inl bad ↦ absurd (ground (arith, loaded, logs, bad, e))
          | inr (ip, found) ↦
              let s = run m.readers c (map (attempt jh jw c) rounds) in
              let same : record { config = c; server_ip = ip; state = s.0; ending = s.1 } ≡ done =
                ground (arith, loaded, logs, found, e) in
              let (written, read, kept, valid) =
                (load_client_exact m.readers m.windows (m.client_file path) c).0 loaded in
              subst (Ran m n jh jw rounds) same
                (record { valid = valid; found = found; result = refl })
        ]
      ]
    ]

-- Where runClient gets as far as the loop of `Run`, with a resolver that answers for IPv4, and
-- whatever the servers answer in each round, the options of every call of SetupClient, one that
-- fails included, hold IPv4 addresses of the client, of the gateway and of the server, an MTU of
-- 576 to 1500, and DNS servers that are all IPv4 addresses.
pub run_client-IsReady :
    (m : Machine) (n : Network) (jh : Json Hello) (jw : Json Welcome)
    (rounds : List (Dial × Attempt)) (path name : Bytes) (done : ClientRun)
    → ResolvesIpv4 n
    → run_client m n jh jw rounds (some path) ≡ ok done
    → All IsReady (setups m.readers done.config name done.server_ip (done.state, done.ending))
run_client-IsReady m n jh jw rounds path name done known e =
    let ran = run_client-Ran m n jh jw rounds path done e in
    subst (λ s. All IsReady (setups m.readers done.config name done.server_ip s)) (sym ran.result)
      (setups_of_run m.readers n jh jw done.config name done.server_ip rounds ran.valid known
        ran.found)
