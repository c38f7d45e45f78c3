-- ===== src/Config/Load/Tests.antt =====
-- internal/config/config.go: a file that only its owner reads, with one configuration in it.
use veilink.Prelude.{◌≡◌, ◌↔◌, some, true, false, ok, []}
use veilink.Config.{ServerConfig, apply_server_defaults}
use veilink.Config.Load.{File, load_server}
use veilink.Config.Load.Accepted.{IsReadAs, load_server_exact}
use veilink.Config.Validate.{validate_server}
use veilink.Config.Validate.Tests.{readers, config}

-- Mode 0o600.
abbrev pub file : File ServerConfig
file = record { mode = some 384; first = some config; at_end = true }

load_server_exact_example : (load_server readers false (some file) ≡ ok config) ↔ (
    (written : ServerConfig) × IsReadAs false true (some file) written
    × (config ≡ apply_server_defaults written)
    × (validate_server readers config ≡ []))
load_server_exact_example = load_server_exact readers false (some file) config
