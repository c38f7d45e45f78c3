-- ===== src/Server/Authentication.antt =====
-- internal/server/server.go: `New` and `authenticate`. A token is let in if and only if a configured
-- client has its digest, under that client's name and address.
use mathlib.Core.List.{Memᴰ}
use veilink.Prelude.{
  drop-append_self, ap, has_prefix-append, lookup-insert_self, has_prefix-split, All-map, bytes_eq,
  Bool-cases, ℕ, List, [], ◌∷◌, ◌++◌, ◌≡◌, ◌≢◌, ◌⊎◌, ◌↔◌, inl, inr, refl, sym, ◌∙◌, some, ok, Bytes,
  bytes_Eq, lookup, insert, AllPairs, All, arith, Result-cases, bytes_eq_iff, lookup-insert,
}
use veilink.Auth.{Digest, parse_hash, trim_prefix}
use veilink.Config.{ServerConfig, ServerClient, Readers}
use veilink.Config.Validate.{validate_server, or_invalid}
use veilink.Config.Validate.Clients.{AreApart, digest_of}
use veilink.Config.Validate.Accepted.{validate_server-IsServable}
use veilink.Server.{Server, Identity, identities, new_server, authenticate, bearer}

module _ (r : Readers) where
  abbrev pub identity_of : ServerClient → Identity
  identity_of c = record { name = c.name; addr = or_invalid (r.parse_addr c.address) }

  -- A digest that none of the clients has keeps its entry.
  identities_kept :
      (k : Bytes) (m m' : List (Bytes × Identity)) (cs : List ServerClient)
      → identities r m cs ≡ ok m'
      → All (λ c. digest_of r c ≢ k) cs
      → lookup k m' ≡ lookup k m
  unfolding identities
  identities_kept k m m' [] e h = ground arith
  identities_kept k m m' (c ∷ cs) e h = elim (Result-cases (parse_hash c.token_sha256)) [
    | inl (sum, p) ↦
        identities_kept k (insert sum (identity_of c) m) m' cs (rw (p, identities) at e) h.1
        ∙ ground (arith, lookup-insert sum k (identity_of c) m, bytes_eq_iff sum k, p, h.0)
    | inr bad ↦ absurd (ground (arith, bad))
  ]

  identities_sound :
      (k : Bytes) (id : Identity) (m m' : List (Bytes × Identity)) (cs : List ServerClient)
      → identities r m cs ≡ ok m'
      → lookup k m' ≡ some id
      → ((c : ServerClient) × Memᴰ c cs × (parse_hash c.token_sha256 ≡ ok k) × (id ≡ identity_of c))
        ⊎ (lookup k m ≡ some id)
  unfolding identities
  identities_sound k id m m' [] e l = inr (ground arith)
  identities_sound k id m m' (c ∷ cs) e l = elim (Result-cases (parse_hash c.token_sha256)) [
    | inl (sum, p) ↦
        (elim (identities_sound k id (insert sum (identity_of c) m) m' cs (rw (p, identities) at e)
          l) [
            | inl (d, at, ph, same) ↦ inl (d, Memᴰ.tail at, ph, same)
            | inr before ↦ elim (Bool-cases (bytes_eq sum k)) [
              | inl hit ↦ inl (
                c,
                Memᴰ.head refl,
                ground (arith, bytes_eq_iff sum k, p, hit),
                ground (arith, before, lookup-insert sum k (identity_of c) m, hit),
              )
              | inr miss ↦ inr (ground (arith, before, lookup-insert sum k (identity_of c) m, miss))
            ]
          ])
    | inr bad ↦ absurd (ground (arith, bad))
  ]

  digest_is : (d : ServerClient) (k : Bytes) → parse_hash d.token_sha256 ≡ ok k → digest_of r d ≡ k
  digest_is d k p = rw p

  identities_complete :
      (k : Bytes) (c : ServerClient) (m m' : List (Bytes × Identity)) (cs : List ServerClient)
      → identities r m cs ≡ ok m'
      → AllPairs (AreApart r) cs
      → Memᴰ c cs
      → parse_hash c.token_sha256 ≡ ok k
      → lookup k m' ≡ some (identity_of c)
  unfolding identities
  identities_complete k c m m' [] e h at p = elim at [ ]
  identities_complete k c m m' (d ∷ cs) e h (Memᴰ.head same) p =
      let p' : parse_hash d.token_sha256 ≡ ok k = rw same at p in
      identities_kept k (insert k (identity_of d) m) m' cs (rw (p', identities) at e)
        (All-map _ _ cs (λ x apart is. apart.digests (digest_is d k p' ∙ sym is)) h.0)
      ∙ (lookup-insert_self k (identity_of d) m ∙ ap (λ x. some (identity_of x)) (sym same))
  identities_complete k c m m' (d ∷ cs) e h (Memᴰ.tail at) p =
      elim (Result-cases (parse_hash d.token_sha256)) [
        | inl (sum, q) ↦
            identities_complete k c (insert sum (identity_of d) m) m' cs (rw (q, identities) at e)
              h.1 at p
        | inr bad ↦ absurd (ground (arith, bad))
      ]

  pub new_server_parts :
      (capacity : ℕ → ℕ) (c : ServerConfig) (s : Server)
      → new_server r capacity c ≡ ok s
      → (validate_server r c ≡ [])
        × (identities r [] c.clients ≡ ok s.ident)
        × (s.config ≡ c)
        × (s.tun ≡ [])
  unfolding new_server
  new_server_parts capacity c s e = (ground arith, ground arith, ground arith, ground arith)

  -- The entries of the map, for a server that `New` made.
  new_server_ident :
      (capacity : ℕ → ℕ) (c : ServerConfig) (s : Server) (k : Bytes) (id : Identity)
      → new_server r capacity c ≡ ok s
      → (lookup k s.ident ≡ some id) ↔ (
          (x : ServerClient) × Memᴰ x c.clients
          × (parse_hash x.token_sha256 ≡ ok k)
          × (id ≡ identity_of x))
  new_server_ident capacity c s k id e =
      let (valid, made, same, empty) = new_server_parts capacity c s e in
      (
        (λ l. elim (identities_sound k id [] s.ident c.clients made l) [
          | inl found ↦ found
          | inr old ↦ absurd (unfold lookup in cc)
        ]),
        (λ (x, at, p, is). rw is (
            identities_complete k x [] s.ident c.clients made
              (validate_server-IsServable r c valid).apart at p)),
      )

  has_bearer :
      (d : Digest) (s : Server) (header : Bytes) (id : Identity)
      → (authenticate d s header ≡ some id) ↔ (
          (token : Bytes) × (header ≡ bearer ++ token)
          × (lookup (d.sum_256 token) s.ident ≡ some id))
  unfolding authenticate
  has_bearer d s header id = (
    (λ e.
        (trim_prefix header bearer, ground (arith, has_prefix-split header bearer), ground arith)),
    (λ (token, is, l).
        rw is (ground (arith, has_prefix-append bearer token, drop-append_self bearer token, l))),
  )

  -- For a server that `New` made from a configuration, a request is let in as an identity if and
  -- only if its header is "Bearer " and a token whose digest is that of a configured client with
  -- that name and address.
  pub authenticate_exact :
      (d : Digest) (capacity : ℕ → ℕ) (c : ServerConfig) (s : Server) (header : Bytes)
      (id : Identity)
      → new_server r capacity c ≡ ok s
      → (authenticate d s header ≡ some id) ↔ (
          (token : Bytes) × (x : ServerClient) × (header ≡ bearer ++ token)
          × Memᴰ x c.clients
          × (parse_hash x.token_sha256 ≡ ok (d.sum_256 token))
          × (id ≡ identity_of x))
  authenticate_exact d capacity c s header id e = (
    (λ a.
        let (token, is, l) = (has_bearer d s header id).0 a in
        let (x, at, p, same) = (new_server_ident capacity c s (d.sum_256 token) id e).0 l in
        (token, x, is, at, p, same)),
    (λ (token, x, is, at, p, same).
        (has_bearer d s header id).1
          (token, is, (new_server_ident capacity c s (d.sum_256 token) id e).1 (x, at, p, same))),
  )
