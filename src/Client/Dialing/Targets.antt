-- ===== src/Client/Dialing/Targets.antt =====
-- internal/client/client.go: the addresses that the client dials and hands to the platform.
use veilink.Config.Validate.Shapes.{differ}
use veilink.Prelude.{
  All-append, Bool-cases, bytes_eq, ◌⊎◌, ◌≢◌, codes, ◌≡◌, refl, subst, ap, ◌∙◌, arith, pos, ltb_ℤ,
  true, false, List, [], ◌∷◌, map, Option, none, some, All, Bytes, bytes_eq_iff, Option-cases, inl,
  inr,
}
use veilink.Netip.{Addr, is_4, unmap}
use veilink.Config.{ClientConfig, Readers, Url}
use veilink.Config.Validate.{validate_client, or_invalid}
use veilink.Config.Validate.ClientAccepted.{IsIpv4, IsUsable, validate_client-IsUsable}
use veilink.Platform.Linux.{ClientOptions}
use veilink.Protocol.Control.{Hello, Welcome, Json}
use veilink.Client.{Dial}
use veilink.Client.Run.{
  Effect, opens, sets_up, reads, serves, tears_down, closes, Attempt, attempt, run, parse_ipv4,
  Params, Tunnel, Ending, cancelled, invalid_address, invalid_gateway, open_failed, no_name,
  setup_failed, changed,
}
use veilink.Client.Run.Options.{IsSafeEffect, run-Safe, IsSafe, Safe, SafeParams, parse_ipv4-is_4}
use veilink.Client.Dialing.{
  Network, resolve_server_ipv4, first_of, url_port, dial_context, setup_options, setups,
  finished_setups, failed_setup,
}

-- The IPv4 resolver's answers are IPv4 addresses, mapped to IPv6 or not.
abbrev pub ResolvesIpv4 : Network → Type 0
ResolvesIpv4 n =
    (host : Bytes) (found : List Addr)
    → n.lookup_ip4 host ≡ some found
    → All (λ a. is_4 (unmap a) ≡ true) found

-- Options that the platform can use: three IPv4 addresses, an MTU of 576 to 1500, IPv4 resolvers.
pub record IsReady (o : ClientOptions) : Type 0 where
  pub address : is_4 o.address ≡ true
  pub gateway : is_4 o.gateway ≡ true
  pub server : is_4 o.server_ip ≡ true
  pub low : ltb_ℤ o.mtu (pos 576) ≡ false
  pub high : ltb_ℤ (pos 1500) o.mtu ≡ false
  pub resolvers : All (λ a. is_4 a ≡ true) o.dns

first_of-is_4 :
    (found : Option (List Addr)) {ip : Addr}
    → ((known : List Addr) → found ≡ some known → All (λ a. is_4 (unmap a) ≡ true) known)
    → first_of found ≡ some ip
    → is_4 ip ≡ true
first_of-is_4 none all e = absurd (ground (arith, e))
first_of-is_4 (some []) all e = absurd (ground (arith, e))
first_of-is_4 (some (a ∷ rest)) all e =
    subst (λ o. is_4 (or_invalid o) ≡ true) e (all (a ∷ rest) refl).0

pub resolve-is_4 :
    (r : Readers) (n : Network) (raw : Bytes) {ip : Addr}
    → ResolvesIpv4 n
    → resolve_server_ipv4 r n raw ≡ some ip
    → is_4 ip ≡ true
unfolding resolve_server_ipv4
resolve-is_4 r n raw known e = elim (Option-cases (r.parse_url raw)) [
  | inl bad ↦ absurd (ground (arith, bad, e))
  | inr (u, parsed) ↦ elim (Option-cases (parse_ipv4 r (n.hostname u))) [
    | inr (x, literal) ↦
        ground (arith, parsed, literal, e, parse_ipv4-is_4 r (n.hostname u) literal)
    | inl no_literal ↦
        first_of-is_4 (n.lookup_ip4 (n.hostname u)) (known (n.hostname u))
          (ground (arith, parsed, no_literal, e))
  ]
]

resolvers-is_4 :
    (r : Readers) (ss : List Bytes)
    → All (IsIpv4 r) ss
    → All (λ a. is_4 a ≡ true) (map (λ raw. or_invalid (r.parse_addr raw)) ss)
resolvers-is_4 r [] h = tt
resolvers-is_4 r (s ∷ ss) ((a, parsed, four), h) = (rw parsed four, resolvers-is_4 r ss h)

setup_options-IsReady :
    (r : Readers) (c : ClientConfig) (name : Bytes) (ip : Addr) (p : Params)
    → IsUsable r c
    → is_4 ip ≡ true
    → IsSafe p
    → IsReady (setup_options r c name p ip)
unfolding setup_options
setup_options-IsReady r c name ip p usable four safe = record {
  address = safe.assigned;
  gateway = safe.gateway;
  server = four;
  low = safe.low;
  high = safe.high;
  resolvers = resolvers-is_4 r c.dns usable.resolvers;
}

-- What holds of the options of each safe set-up holds of all that are handed over.
finished_setups-All :
    (Q : ClientOptions → Type 0) (r : Readers) (c : ClientConfig) (name : Bytes) (ip : Addr)
    → ((p : Params) → IsSafe p → Q (setup_options r c name p ip))
    → (es : List Effect) → All IsSafeEffect es
    → All Q (finished_setups r c name ip es)
unfolding finished_setups
finished_setups-All Q r c name ip each [] h = tt
finished_setups-All Q r c name ip each (sets_up p ∷ es) (safe, h) =
    (each p safe, finished_setups-All Q r c name ip each es h)
finished_setups-All Q r c name ip each (opens p ∷ es) h =
    finished_setups-All Q r c name ip each es h.1
finished_setups-All Q r c name ip each (reads p ∷ es) h =
    finished_setups-All Q r c name ip each es h.1
finished_setups-All Q r c name ip each (serves p ∷ es) h =
    finished_setups-All Q r c name ip each es h.1
finished_setups-All Q r c name ip each (tears_down ∷ es) h =
    finished_setups-All Q r c name ip each es h.1
finished_setups-All Q r c name ip each (closes ∷ es) h =
    finished_setups-All Q r c name ip each es h.1

failed_setup-All :
    (Q : ClientOptions → Type 0) (r : Readers) (c : ClientConfig) (name : Bytes) (ip : Addr)
    → ((p : Params) → IsSafe p → Q (setup_options r c name p ip))
    → (params : Option Params) (ending : Option Ending) → SafeParams params
    → All Q (failed_setup r c name ip params ending)
unfolding failed_setup
failed_setup-All Q r c name ip each none ending h = tt
failed_setup-All Q r c name ip each (some p) none h = tt
failed_setup-All Q r c name ip each (some p) (some setup_failed) h = (each p h, tt)
failed_setup-All Q r c name ip each (some p) (some cancelled) h = tt
failed_setup-All Q r c name ip each (some p) (some invalid_address) h = tt
failed_setup-All Q r c name ip each (some p) (some invalid_gateway) h = tt
failed_setup-All Q r c name ip each (some p) (some open_failed) h = tt
failed_setup-All Q r c name ip each (some p) (some no_name) h = tt
failed_setup-All Q r c name ip each (some p) (some changed) h = tt

pub setups-All :
    (Q : ClientOptions → Type 0) (r : Readers) (c : ClientConfig) (name : Bytes) (ip : Addr)
    → ((p : Params) → IsSafe p → Q (setup_options r c name p ip))
    → (s : Tunnel × Option Ending) → Safe s.0
    → All Q (setups r c name ip s)
unfolding setups
setups-All Q r c name ip each s safe =
    All-append _ _ _ (finished_setups-All Q r c name ip each s.0.effects safe.effects)
      (failed_setup-All Q r c name ip each s.0.params s.1 safe.params)

-- The options for each set-up of `Run`, once the name of the server is resolved.
pub setups_of_run :
    (r : Readers) (n : Network) (jh : Json Hello) (jw : Json Welcome) (c : ClientConfig)
    (name : Bytes) (ip : Addr) (rounds : List (Dial × Attempt))
    → validate_client r c ≡ []
    → ResolvesIpv4 n
    → resolve_server_ipv4 r n c.server_url ≡ some ip
    → All IsReady (setups r c name ip (run r c (map (attempt jh jw c) rounds)))
setups_of_run r n jh jw c name ip rounds valid known found =
    setups-All IsReady r c name ip
      (λ p safe.
        setup_options-IsReady r c name ip p (validate_client-IsUsable r c valid)
          (resolve-is_4 r n c.server_url known found) safe)
      (run r c (map (attempt jh jw c) rounds)) (run-Safe r jh jw c rounds valid)

-- Every set-up is told the address that the name resolved to.
pub setups_server :
    (r : Readers) (jh : Json Hello) (jw : Json Welcome) (c : ClientConfig) (name : Bytes)
    (ip : Addr) (rounds : List (Dial × Attempt))
    → validate_client r c ≡ []
    → All (λ o. o.server_ip ≡ ip) (setups r c name ip (run r c (map (attempt jh jw c) rounds)))
unfolding setup_options
setups_server r jh jw c name ip rounds valid =
    setups-All (λ o. o.server_ip ≡ ip) r c name ip (λ p safe. refl)
      (run r c (map (attempt jh jw c) rounds)) (run-Safe r jh jw c rounds valid)

-- The port of a URL, 443 where it has none.
abbrev pub IsPort : Network → Url → Bytes → Type 0
IsPort n u port = ((n.port u ≡ []) × (port ≡ codes "443")) ⊎ ((n.port u ≢ []) × (port ≡ n.port u))

-- A target that the transport may dial when it asks for an address: the pinned address, at the
-- port of the URL, where the address that it asks for has the URL's host and this port.
pub record IsPinned (r : Readers) (n : Network) (u : Url) (ip : Addr) (asked : Bytes)
    (target : Addr) (port : Bytes) : Type 0 where
  pub address : target ≡ ip
  pub port_of_url : IsPort n u port
  pub host : Bytes
  pub split : r.split_host_port asked ≡ some (host, port)
  pub host_of_url : n.equal_fold host (n.hostname u) ≡ true

url_port-IsPort : (n : Network) (u : Url) → IsPort n u (url_port n u)
url_port-IsPort n u = elim (Bool-cases (bytes_eq (n.port u) (codes ""))) [
  | inl none_given ↦ inl ((bytes_eq_iff (n.port u) (codes "")).0 none_given, rw none_given refl)
  | inr given ↦ inr ((differ (n.port u) (codes "")).0 given, rw given refl)
]

pub dial_context-IsPinned :
    (r : Readers) (n : Network) (u : Url) (ip target : Addr) (asked port : Bytes)
    → dial_context r n u ip asked ≡ some (target, port)
    → IsPinned r n u ip asked target port
unfolding dial_context
dial_context-IsPinned r n u ip target asked port dialed =
    elim (Option-cases (r.split_host_port asked)) [
      | inl bad ↦ absurd (ground (arith, bad, dialed))
      | inr ((host, requested), split) ↦
          let same : requested ≡ port =
            ground (arith, split, dialed, bytes_eq_iff requested (url_port n u)) in
          let own : url_port n u ≡ port = ground (arith, split, dialed) in
          record {
            address = ground (arith, split, dialed);
            port_of_url = subst (IsPort n u) own (url_port-IsPort n u);
            host = host;
            split = split ∙ ap (λ x. some (host, x)) same;
            host_of_url = ground (arith, split, dialed);
          }
    ]
