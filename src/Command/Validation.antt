-- ===== src/Command/Validation.antt =====
-- cmd/veilink/main.go: what `runValidate` accepts.
use veilink.Prelude.{
  ◌≡◌, ◌≢◌, ◌↔◌, ◌⊎◌, arith, inl, inr, Bytes, codes, bytes_eq, bytes_eq_iff, some, ok, Result-cases,
  Bool-cases,
}
use veilink.Config.{ServerConfig, ClientConfig}
use veilink.Config.Load.{load_server, load_client}
use veilink.Command.{Machine, run_validate}

abbrev pub IsLoaded : Machine → Bytes → Bytes → Type 0
IsLoaded m kind path =
    ((kind ≡ codes "server")
      × (c : ServerConfig) × (load_server m.readers m.windows (m.server_file path) ≡ ok c))
    ⊎ ((kind ≡ codes "client")
        × (c : ClientConfig) × (load_client m.readers m.windows (m.client_file path) ≡ ok c))

IsLoaded-run_validate :
    (m : Machine) (kind path : Bytes)
    → path ≢ codes ""
    → IsLoaded m kind path
    → run_validate m (some (kind, path)) ≡ ok tt
unfolding run_validate
IsLoaded-run_validate m kind path named (inl (is, c, l)) =
    rw is (ground (arith, l, bytes_eq_iff path (codes "")))
IsLoaded-run_validate m kind path named (inr (is, c, l)) =
    rw is (ground (arith, l, bytes_eq_iff path (codes "")))

run_validate-IsLoaded :
    (m : Machine) (kind path : Bytes)
    → run_validate m (some (kind, path)) ≡ ok tt
    → (path ≢ codes "") × IsLoaded m kind path
unfolding run_validate
run_validate-IsLoaded m kind path e = elim (Bool-cases (bytes_eq path (codes ""))) [
  | inl nameless ↦ absurd (ground (arith, nameless))
  | inr named ↦
      let differs : path ≢ codes "" = λ q. ground (arith, named, bytes_eq_iff path (codes "")) in
      elim (Bool-cases (bytes_eq kind (codes "server"))) [
        | inl server ↦ elim (Result-cases (load_server m.readers m.windows (m.server_file path))) [
          | inl (c, l) ↦ (differs, inl ((bytes_eq_iff kind (codes "server")).0 server, c, l))
          | inr bad ↦ absurd (ground (arith, named, server, bad))
        ]
        | inr not_server ↦ elim (Bool-cases (bytes_eq kind (codes "client"))) [
          | inl client ↦
              elim (Result-cases (load_client m.readers m.windows (m.client_file path))) [
                | inl (c, l) ↦ (differs, inr ((bytes_eq_iff kind (codes "client")).0 client, c, l))
                | inr bad ↦ absurd (ground (arith, named, not_server, client, bad))
              ]
          | inr not_client ↦ absurd (ground (arith, named, not_server, not_client))
        ]
      ]
]

-- runValidate reports a file as valid if and only if its path is not empty and it is loaded as a
-- server's or a client's configuration, whichever the type names.
pub run_validate_exact :
    (m : Machine) (kind path : Bytes)
    → (run_validate m (some (kind, path)) ≡ ok tt) ↔ ((path ≢ codes "") × IsLoaded m kind path)
run_validate_exact m kind path =
    (run_validate-IsLoaded m kind path, λ h. IsLoaded-run_validate m kind path h.0 h.1)
