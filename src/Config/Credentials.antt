-- ===== src/Config/Credentials.antt =====
-- pkg/config/config.go: the credentials of a server.
use tee_relay_client.Base.{
  ℕ, ◌≤◌, Bool, true, false, not, ◌&&◌, ◌||◌, leb, [], ◌∷◌, length, Bytes, bytes, bytes_eq, nat_eq,
  ◌==◌, contains, if◌then◌else◌, new, Result, ok, err, wrapped, then_do, Result-cases, ◌≡◌, ◌≢◌,
  ◌⊎◌, ◌↔◌, refl, inl, inr, arith,
}

pub record Credentials : Type 0 where
  pub key_name : Bytes
  pub key : Bytes
  pub url : Bytes

-- `call.APIKey`: the header's name and value.
pub record ApiKey : Type 0 where
  pub name : Bytes
  pub key : Bytes

-- `APIKey`
unfoldable pub api_key : Credentials → ApiKey
api_key c = record { name = c.key_name; key = c.key }

-- A parsed `url.URL`.
pub record Url : Type 0 where
  pub scheme : Bytes
  pub host : Bytes

unfoldable pub header_token_specials : Bytes
header_token_specials = bytes "!#$%&'*+-.^_`|~"

unfoldable pub is_token : ℕ → Bool
is_token b =
    leb 97 b && leb b 122
    || leb 65 b && leb b 90
    || leb 48 b && leb b 57
    || contains header_token_specials b

-- `checkHeaderName`
unfoldable pub check_header_name : Bytes → Result (Unit {0})
check_header_name [] = ok tt
check_header_name (b ∷ name) =
    let rest = check_header_name name in
    if is_token b then rest else err (new "not a valid HTTP header name character")

-- A letter, a digit or one of the special characters of a token.
abbrev pub TokenByte : ℕ → Type 0
TokenByte b =
    (97 ≤ b) × (b ≤ 122)
    ⊎ (65 ≤ b) × (b ≤ 90)
    ⊎ (48 ≤ b) × (b ≤ 57)
    ⊎ (contains header_token_specials b ≡ true)

is_token_lem : (b : ℕ) → (is_token b ≡ true) ↔ TokenByte b
unfolding is_token
is_token_lem b = (λ h. ground arith, λ h. ground arith)

abbrev pub AllTokens : Bytes → Type 0
AllTokens [] = Unit
AllTokens (b ∷ name) = TokenByte b × AllTokens name

check_header_name_lem : (name : Bytes) → (check_header_name name ≡ ok tt) ↔ AllTokens name
unfolding check_header_name
check_header_name_lem [] = (λ h. tt, λ h. refl)
check_header_name_lem (b ∷ name) =
    let here = is_token_lem b in
    let next = check_header_name_lem name in
    (λ h. (here.0 (ground arith), next.0 (ground arith)), λ (t, ts). rw (here.1 t) (next.1 ts))

unfoldable pub http : Bytes
http = bytes "http"

unfoldable pub https : Bytes
https = bytes "https"

-- `url.Parse`
module _ (parse_url : Bytes → Result Url) where
  -- The `switch` over the parsed URL.
  abbrev check_url : Bytes → Result (Unit {0})
  check_url url = then_do (wrapped "invalid URL" (parse_url url)) λ u.
      if not (u.scheme == http) && not (u.scheme == https)
      then err (new "URL scheme must be http or https")
      else if length u.host == 0
      then err (new "URL host not set")
      else ok tt

  -- `(c *Credentials) Check`
  unfoldable pub check : Credentials → Result (Unit {0})
  check c =
      if length c.url == 0
      then err (new "URL not set")
      else then_do (check_url c.url) λ u.
        if not (length c.key == 0) && length c.key_name == 0
        then err (new "unnamed api key")
        else then_do (wrapped "key_name" (check_header_name c.key_name)) λ u.
          if contains c.key 13 || contains c.key 10
          then err (new "key must not contain CR or LF")
          else ok tt

  -- Credentials that a request can be made with: an HTTP URL with a host, and a key that has a
  -- name and fits into a header.
  pub record Usable (c : Credentials) : Type 0 where
    pub url_set : c.url ≢ []
    pub parsed : Url
    pub parses : parse_url c.url ≡ ok parsed
    pub scheme : (parsed.scheme ≡ http) ⊎ (parsed.scheme ≡ https)
    pub host_set : parsed.host ≢ []
    pub named : (c.key ≡ []) ⊎ (c.key_name ≢ [])
    pub name_fits : AllTokens c.key_name
    pub no_cr : contains c.key 13 ≡ false
    pub no_lf : contains c.key 10 ≡ false

  check-Usable : (c : Credentials) → check c ≡ ok tt → Usable c
  unfolding check
  check-Usable c h = elim (Result-cases (parse_url c.url)) [
    | inr bad ↦ absurd (ground arith)
    | inl (u, e) ↦ elim (Result-cases (check_header_name c.key_name)) [
      | inr bad ↦ absurd (ground arith)
      | inl (tt, k) ↦ record {
        url_set = λ z. ground arith;
        parsed = u;
        parses = e;
        scheme = ground arith;
        host_set = λ z. ground arith;
        named = ground arith;
        name_fits = (check_header_name_lem c.key_name).0 k;
        no_cr = ground arith;
        no_lf = ground arith;
      }
    ]
  ]

  Usable-check : (c : Credentials) → Usable c → check c ≡ ok tt
  unfolding check
  Usable-check c u = ground (
    arith,
    u.url_set,
    u.parses,
    u.scheme,
    u.host_set,
    u.named,
    (check_header_name_lem c.key_name).1 u.name_fits,
    u.no_cr,
    u.no_lf,
  )

  -- `Check` passes exactly for a parsable HTTP or HTTPS URL with a host and a key that is empty
  -- or named, where the name has only token characters and the key no line break.
  pub check_lem : (c : Credentials) → (check c ≡ ok tt) ↔ Usable c
  check_lem c = (check-Usable c, Usable-check c)
