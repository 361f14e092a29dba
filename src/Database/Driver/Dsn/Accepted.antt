-- ===== src/Database/Driver/Dsn/Accepted.antt =====
-- What a DSN must have to be accepted.
use jt400_go.Prelude.{
  ◌≡◌, refl, ◌∙◌, true, false, ◌||◌, Option, none, some, List, [], ◌∷◌, arith, Bool-cases, inl, inr,
}
use jt400_go.Go.{Result, ok, err, ◌>>=◌, Bytes}
use jt400_go.Go.Outcome.{>>=-eq-ok, if-both, guard-eq-ok}
use jt400_go.Go.Strings.{codes, bytes_eq, is_nil}
use jt400_go.Go.Numbers.{parse_int}
use jt400_go.Database.Driver.Dsn.{
  Url, Parsers, Connector, DsnError, bad_naming, unknown_parameter, required, bad_parameter,
  last_value, set_option, set_options, with_user, parse_dsn, port_of, no_user_or_host, bad_url,
  bad_scheme,
}

-- The fields that no parameter of a DSN changes.
abbrev Kept : {L : Type 0} → Connector L → Connector L → Type 0
Kept c c' =
    (c'.host ≡ c.host) × (c'.user_id ≡ c.user_id) × (c'.password ≡ c.password) × (c'.port ≡ c.port)

-- Every connector that comes out keeps them.
abbrev Keeps : {L : Type 0} → Connector L → Result DsnError (Connector L) → Type 0
Keeps c m = (c' : Connector _) → m ≡ ok c' → Kept c c'

ok-Keeps : {L : Type 0} (c c' : Connector L) → Kept c c' → Keeps c (ok c')
ok-Keeps c c' k c'' h = let same : c'' ≡ c' = cc in rw same k

err-Keeps : {L : Type 0} (c : Connector L) (e : DsnError) → Keeps c (err e)
err-Keeps c e c' h = cc

required-Keeps :
    {L A : Type 0} (c : Connector L) (e : DsnError) (m : Option A) (f : A → Connector L)
    → ((a : A) → Kept c (f a))
    → Keeps c (required e m >>= λ a. ok (f a))
required-Keeps c e none f k c' h = cc
required-Keeps c e (some a) f k c' h = ok-Keeps c (f a) (k a) c' h

module _ {Location : Type 0} (o : Parsers Location) where
  open o use {parse_url, parse_bool, parse_duration, load_location}

  set_option-Keeps : (c : Connector Location) (key v : Bytes) → Keeps c (set_option o c key v)
  unfolding set_option
  set_option-Keeps c key v =
      let same : Kept c c = (refl, refl, refl, refl) in
      if-both (Keeps c) (bytes_eq key (codes "tls")) _ _
        (required-Keeps c (bad_parameter key) (parse_bool v) (λ on. record c { tls = on || c.tls })
          (λ on. same))
        (if-both (Keeps c) (bytes_eq key (codes "naming")) _ _
          (if-both (Keeps c) (bytes_eq v (codes "sql")) (ok c) _ (ok-Keeps c c same) (
            if-both (Keeps c) (bytes_eq v (codes "system")) (ok (record c { system_naming = true }))
              (err bad_naming) (ok-Keeps c (record c { system_naming = true }) same)
              (err-Keeps c bad_naming)))
          (if-both (Keeps c) (bytes_eq key (codes "schema")) _ _
            (ok-Keeps c (record c { default_schema = v }) same)
            (if-both (Keeps c) (bytes_eq key (codes "timeout")) _ _
              (required-Keeps c (bad_parameter key) (parse_duration v)
                (λ d. record c { timeout = d }) (λ d. same))
              (if-both (Keeps c) (bytes_eq key (codes "iotimeout")) _ _
                (required-Keeps c (bad_parameter key) (parse_duration v)
                  (λ d. record c { io_timeout = d }) (λ d. same))
                (if-both (Keeps c) (bytes_eq key (codes "location")) _ _
                  (required-Keeps c (bad_parameter key) (load_location v)
                    (λ l. record c { location = some l }) (λ l. same))
                  (if-both (Keeps c) (bytes_eq key (codes "blocksize")) _ _
                    (required-Keeps c (bad_parameter key) (parse_int v)
                      (λ n. record c { block_size = n }) (λ n. same))
                    (err-Keeps c (unknown_parameter key))))))))

  set_options-Keeps :
      (query : List (Bytes × List Bytes)) (c : Connector Location) → Keeps c (set_options o query c)
  unfolding set_options
  set_options-Keeps [] c c' h = ok-Keeps c c (refl, refl, refl, refl) c' h
  set_options-Keeps ((key, vals) ∷ query) c c' h =
      let (v, e, g) = >>=-eq-ok (last_value vals) _ h in
      let (c1, e', g') = >>=-eq-ok (set_option o c key v) (set_options o query) g in
      let first = set_option-Keeps c key v c1 e' in
      let rest = set_options-Keeps query c1 c' g' in
      (rest.0 ∙ first.0, rest.1 ∙ first.1, rest.2 ∙ first.2, rest.3 ∙ first.3)

  -- The connector's host, port and credentials are those of this URL, and it names a host and a user.
  abbrev pub Names : Url → Option (Bytes × Bytes) → Connector Location → Type 0
  Names u user c =
      (is_nil c.host ≡ false)
      × (is_nil c.user_id ≡ false)
      × (u.hostname ≡ c.host)
      × (user ≡ some (c.user_id, c.password))
      × (port_of o u.port ≡ ok c.port)

  with_user-Names :
      (u : Url) (user : Option (Bytes × Bytes)) (c : Connector Location)
      → with_user o u user ≡ ok c
      → Names u user c
  unfolding with_user
  with_user-Names u none c h = cc
  with_user-Names u (some (name, password)) c h =
      let (there, g) = guard-eq-ok (is_nil u.hostname || is_nil name) no_user_or_host _ h in
      let (port, e, f) = >>=-eq-ok (port_of o u.port) _ g in
      let (host, user_id, pw, same_port) = set_options-Keeps u.query _ c f in
      rw (host, user_id, pw, same_port) (ground arith, ground arith, refl, refl, e)

  required-some :
      {A : Type 0} (e : DsnError) (m : Option A) (a : A) → required e m ≡ ok a → m ≡ some a
  required-some e none a h = cc
  required-some e (some a') a h = cc

  -- A DSN is accepted only if it is a URL with the scheme jt400, a host and a user; the connector has
  -- the host, the port and the credentials of the URL, whatever parameters stand behind them.
  pub parse_dsn-Names :
      (dsn : Bytes) (c : Connector Location)
      → parse_dsn o dsn ≡ ok c
      → (u : Url) × (parse_url dsn ≡ some u)
        × (bytes_eq u.scheme (codes "jt400") ≡ true)
        × Names u u.user c
  unfolding parse_dsn
  parse_dsn-Names dsn c h =
      let (u, e, g) = >>=-eq-ok (required bad_url (parse_url dsn)) _ h in
      elim (Bool-cases (bytes_eq u.scheme (codes "jt400"))) [
        | inl right ↦
            let taken : with_user o u u.user ≡ ok c = rw right at g in
            (u, required-some bad_url (parse_url dsn) u e, right, with_user-Names u u.user c taken)
        | inr wrong ↦ let bad : err bad_scheme ≡ ok c = rw wrong at g in cc
      ]
