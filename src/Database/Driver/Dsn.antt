-- ===== src/Database/Driver/Dsn.antt =====
-- database/driver.go: ParseDSN. url.Parse is a parameter that gives a Url; so are strconv.ParseBool,
-- time.ParseDuration and time.LoadLocation. Go ranges over the query in any order: the list is one.
pub mod Accepted
use jt400_go.Prelude.{ℕ, Bool, true, false, ◌||◌, Option, none, some, List, [], ◌∷◌, if◌then◌else◌}
use jt400_go.Prelude.Int.{ℤ, pos}
use jt400_go.Go.{Result, ok, err, panic, ◌>>=◌, Bytes}
use jt400_go.Go.Strings.{codes, bytes_eq, is_nil}
use jt400_go.Go.Numbers.{parse_int}

-- A url.URL, with its Hostname, Port, User and Query.
pub record Url : Type 0 where
  pub scheme : Bytes
  pub hostname : Bytes
  pub user : Option (Bytes × Bytes)
  pub port : Bytes
  pub query : List (Bytes × List Bytes)

pub record Parsers (Location : Type 0) : Type 0 where
  pub parse_url : Bytes → Option Url
  pub parse_bool : Bytes → Option Bool
  pub parse_duration : Bytes → Option ℤ
  pub load_location : Bytes → Option Location

-- Connector with the parts of Dial and Options that a DSN sets; `tls` is a TLSConfig for the host.
pub record Connector (Location : Type 0) : Type 0 where
  pub host : Bytes
  pub port : ℤ
  pub tls : Bool
  pub timeout : ℤ
  pub io_timeout : ℤ
  pub user_id : Bytes
  pub password : Bytes
  pub system_naming : Bool
  pub default_schema : Bytes
  pub location : Option Location
  pub block_size : ℤ

pub data DsnError : Type 0 where
  bad_url bad_scheme no_user_or_host bad_port bad_naming : DsnError
  bad_parameter unknown_parameter : Bytes → DsnError

abbrev pub required {ℓ} : {A : Type ℓ} → DsnError → Option A → Result DsnError A
required e none = err e
required e (some a) = ok a

-- vals[len(vals)-1]
unfoldable pub last_value : List Bytes → Result DsnError Bytes
last_value [] = panic
last_value (v ∷ []) = ok v
last_value (v ∷ u ∷ vals) = last_value (u ∷ vals)

module _ {Location : Type 0} (o : Parsers Location) where
  open o use {parse_url, parse_bool, parse_duration, load_location}

  -- The switch on one key and its value.
  unfoldable pub set_option :
      Connector Location → Bytes → Bytes → Result DsnError (Connector Location)
  set_option c key v =
      if bytes_eq key (codes "tls")
      then (required (bad_parameter key) (parse_bool v) >>= λ on.
          ok (record c { tls = on || c.tls }))
      else if bytes_eq key (codes "naming")
      then (if bytes_eq v (codes "sql")
          then ok c
          else if bytes_eq v (codes "system")
          then ok (record c { system_naming = true })
          else err bad_naming)
      else if bytes_eq key (codes "schema")
      then ok (record c { default_schema = v })
      else if bytes_eq key (codes "timeout")
      then (required (bad_parameter key) (parse_duration v) >>= λ d. ok (record c { timeout = d }))
      else if bytes_eq key (codes "iotimeout")
      then (required (bad_parameter key) (parse_duration v) >>= λ d.
          ok (record c { io_timeout = d }))
      else if bytes_eq key (codes "location")
      then (required (bad_parameter key) (load_location v) >>= λ l.
          ok (record c { location = some l }))
      else if bytes_eq key (codes "blocksize")
      then (required (bad_parameter key) (parse_int v) >>= λ n. ok (record c { block_size = n }))
      else err (unknown_parameter key)

  unfoldable pub set_options :
      List (Bytes × List Bytes) → Connector Location → Result DsnError (Connector Location)
  unfolding set_option last_value
  set_options [] c = ok c
  set_options ((key, vals) ∷ query) c =
      last_value vals >>= λ v. set_option c key v >>= set_options query

  abbrev pub port_of : Bytes → Result DsnError ℤ
  port_of s = if is_nil s then ok (pos 0) else required bad_port (parse_int s)

  -- ParseDSN on a parsed URL, from its user on.
  unfoldable pub with_user : Url → Option (Bytes × Bytes) → Result DsnError (Connector Location)
  unfolding set_options
  with_user u none = err no_user_or_host
  with_user u (some (name, password)) =
      if is_nil u.hostname || is_nil name
      then err no_user_or_host
      else (port_of u.port >>= λ port. set_options u.query (record {
        host = u.hostname;
        port = port;
        tls = false;
        timeout = pos 0;
        io_timeout = pos 0;
        user_id = name;
        password = password;
        system_naming = false;
        default_schema = [];
        location = none;
        block_size = pos 0;
      }))

  -- ParseDSN
  unfoldable pub parse_dsn : Bytes → Result DsnError (Connector Location)
  unfolding with_user
  parse_dsn dsn = required bad_url (parse_url dsn) >>= λ u.
      if bytes_eq u.scheme (codes "jt400") then with_user u u.user else err bad_scheme
