-- ===== src/Command.antt =====
-- cmd/veilink/main.go: the commands. What `flag` makes of the arguments, the files, the device and the
-- system are arguments; a refusal of `flag` is `none`.
pub mod Validation
pub mod Token
pub mod Meeting
pub mod Serving
pub mod Clients
pub mod Tests
use veilink.Prelude.{
  Bool, true, false, not, List, [], ◌∷◌, ◌++◌, Option, none, some, Result, ok, err, panic, ◌>>=◌,
  ◌>>◌, fail_if, Bytes, codes, bytes_eq, if◌then◌else◌, ℕ, map,
}
use veilink.Auth.{Digest, generate, hash}
use veilink.Config.{ServerConfig, ClientConfig, Readers}
use veilink.Config.Load.{File, LoadError, load_server, load_client}
use veilink.Logging.{new_logger}
use veilink.Server.{new_server}
use veilink.Server.Pages.{new_mux}
use veilink.Server.Lifecycle.{Effect, opens, closes, sets_up, tears_down, Outcome, System}
use veilink.Server.Lifecycle
use veilink.Netip.{Addr}
use veilink.Protocol.Control.{Hello, Welcome, Json}
use veilink.Client.{Dial}
use veilink.Client.Dialing.{Network, resolve_server_ipv4}
use veilink.Client.Run.{Attempt, Tunnel, Ending, start, attempt}
use veilink.Client.Run

-- What `run` makes of its first argument.
pub data Choice : Type 0 where
  no_command serves connects validates makes_token prints_version prints_usage unknown : Choice

unfoldable pub choose : List Bytes → Choice
choose [] = no_command
choose (a ∷ rest) =
    if bytes_eq a (codes "server")
    then serves
    else if bytes_eq a (codes "client")
    then connects
    else if bytes_eq a (codes "validate")
    then validates
    else if bytes_eq a (codes "token")
    then makes_token
    else if bytes_eq a (codes "version")
    then prints_version
    else if bytes_eq a (codes "help")
    then prints_usage
    else if bytes_eq a (codes "-h")
    then prints_usage
    else if bytes_eq a (codes "--help")
    then prints_usage
    else unknown

pub data CommandError : Type 0 where
  bad_flags no_config bad_type not_loaded bad_log no_token unresolved : CommandError

abbrev pub or_else {ℓ κ λ'} : {E : Type ℓ} {F : Type κ} {A : Type λ'} → Result E A → F → Result F A
or_else (ok a) f = ok a
or_else (err e) f = err f
or_else panic f = panic

-- The readers, the two files at a path, as each kind of configuration reads it, and where it runs.
pub record Machine : Type 0 where
  pub readers : Readers
  pub windows : Bool
  pub server_file : Bytes → Option (File ServerConfig)
  pub client_file : Bytes → Option (File ClientConfig)
  pub mapped : Bytes → Bytes  -- `strings.ToLower` past ASCII

-- The values of `-type` and `-config`.
pub run_validate : Machine → Option (Bytes × Bytes) → Result CommandError (Unit {0})
run_validate m none = err bad_flags
run_validate m (some (kind, path)) =
    if bytes_eq path (codes "")
    then err no_config
    else if bytes_eq kind (codes "server")
    then (do c ← or_else (load_server m.readers m.windows (m.server_file path)) not_loaded; ok tt)
    else if bytes_eq kind (codes "client")
    then (do c ← or_else (load_client m.readers m.windows (m.client_file path)) not_loaded; ok tt)
    else err bad_type

-- The token and the digest that are printed.
pub run_token : Digest → Option Bytes → Result CommandError (Bytes × Bytes)
run_token d random = do
  token ← or_else (generate random) no_token
  h ← or_else (hash d token) no_token
  ok (token, h)

-- What the system answers to `runServer`: whether the device opens and the platform is set up.
pub record Host : Type 0 where
  pub opened : Bool
  pub set_up : Bool
  pub capacity : ℕ → ℕ
  pub parses : Bytes → Bool
  pub system : System

pub data ServerEnd : Type 0 where
  refused : CommandError → ServerEnd
  not_opened not_set_up not_made : ServerEnd
  ran : Outcome → ServerEnd

-- What is left of `runServer` once the platform is set up: the cleanup is deferred.
abbrev pub with_cleanup : List Effect × ServerEnd → List Effect × ServerEnd
with_cleanup r = (r.0 ++ tears_down ∷ [], r.1)

abbrev pub serve_with : Machine → Host → ServerConfig → List Effect × ServerEnd
serve_with m h c = elim (new_server m.readers h.capacity c) [
  | ok s ↦ let r = Lifecycle.run (new_mux h.parses c.tunnel_path) h.system in (r.0, ran r.1)
  | err e ↦ (closes ∷ [], not_made)
  | panic ↦ (closes ∷ [], not_made)
]

abbrev pub open_and_serve : Machine → Host → ServerConfig → List Effect × ServerEnd
open_and_serve m h c =
    if not h.opened
    then ([], not_opened)
    else if not h.set_up
    then (opens ∷ closes ∷ [], not_set_up)
    else (
      opens ∷ sets_up ∷ (with_cleanup (serve_with m h c)).0,
      (with_cleanup (serve_with m h c)).1,
    )

pub run_server : Machine → Host → Option Bytes → List Effect × ServerEnd
run_server m h none = ([], refused bad_flags)
run_server m h (some path) = elim (load_server m.readers m.windows (m.server_file path)) [
  | ok c ↦ (elim (new_logger m.mapped c.log) [
    | ok logger ↦ open_and_serve m h c
    | err e ↦ ([], refused bad_log)
    | panic ↦ ([], refused bad_log)
  ])
  | err e ↦ ([], refused not_loaded)
  | panic ↦ ([], refused not_loaded)
]

-- `defaultClientConfig`, with what `os.UserConfigDir` gives.
pub default_client_config : Bool → Option Bytes → Bytes
default_client_config windows none = codes "/etc/veilink/client.yaml"
default_client_config windows (some dir) =
    if windows then dir ++ codes "\\Veilink\\client.yaml" else codes "/etc/veilink/client.yaml"

abbrev pub resolved : Option Addr → Result CommandError Addr
resolved none = err unresolved
resolved (some ip) = ok ip

-- What `Run` of the client is made with, and what it did; its ending is `none` where the rounds of the
-- loop are not at their end.
pub record ClientRun : Type 0 where
  pub config : ClientConfig
  pub server_ip : Addr
  pub state : Tunnel
  pub ending : Option Ending

pub run_client :
    Machine
    → Network
    → Json Hello
    → Json Welcome
    → List (Dial × Attempt)
    → Option Bytes
    → Result CommandError ClientRun
run_client m n jh jw rounds none = err bad_flags
run_client m n jh jw rounds (some path) = do
  c ← or_else (load_client m.readers m.windows (m.client_file path)) not_loaded
  logger ← or_else (new_logger m.mapped c.log) bad_log
  ip ← resolved (resolve_server_ipv4 m.readers n c.server_url)
  let s = Run.run m.readers c (map (attempt jh jw c) rounds)
  ok (record { config = c; server_ip = ip; state = s.0; ending = s.1 })
