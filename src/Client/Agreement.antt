-- ===== src/Client/Agreement.antt =====
-- internal/client/client.go: the hello of a client with a configuration that passes.
use veilink.Prelude.{
  ◌≡◌, ◌∙◌, ap, sym, arith, [], length, some, true, false, Bytes, pos, ltb_ℤ, ltb, codes, bytes_eq,
  bytes_eq_iff, subst,
}
use veilink.Encoding.Base64
use veilink.Config.{ClientConfig, Readers}
use veilink.Config.Validate.{validate_client}
use veilink.Config.Validate.Accepted.{validate_client-mtu}
use veilink.Server.Handshake.{good_hello}
use veilink.Client.{random_session_id}
use veilink.Client.Handshake.{hello_of}

session_id_length :
    (raw id : Bytes) → length raw ≡ 18 → random_session_id (some raw) ≡ some id → length id ≡ 24
unfolding random_session_id
session_id_length raw id n e =
    let is : Base64.encode_to_string raw ≡ id = ground (arith, e) in
    ap length (sym is) ∙ Base64.length-encode_to_string 6 raw n

pub hello_of-good_hello :
    (r : Readers) (c : ClientConfig) (raw id : Bytes)
    → validate_client r c ≡ []
    → length raw ≡ 18
    → random_session_id (some raw) ≡ some id
    → good_hello (hello_of c id) ≡ true
unfolding good_hello
hello_of-good_hello r c raw id valid n e =
    let m = validate_client-mtu r c valid in
    let l = session_id_length raw id n e in
    let short : ltb 128 (length id) ≡ false = ground (arith, l) in
    let named : bytes_eq id (codes "") ≡ false = ground (arith, l, bytes_eq_iff id (codes "")) in
    let low : ltb_ℤ c.mtu (pos 576) ≡ false =
      subst (λ x. ltb_ℤ x (pos 576) ≡ false) (sym m.shape) (ground (arith, m.lower)) in
    let high : ltb_ℤ (pos 1500) c.mtu ≡ false =
      subst (λ x. ltb_ℤ (pos 1500) x ≡ false) (sym m.shape) (ground (arith, m.upper)) in
    ground (arith, short, named, low, high)
