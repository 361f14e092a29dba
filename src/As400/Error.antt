-- ===== src/As400/Error.antt =====
-- The errors that as400/datastream.go, as400/params.go and as400/logon.go build with fmt.Errorf,
-- one constructor for each place.
use jt400_go.Prelude.{ℕ}

pub data WireError : Type 0 where
  read_header : WireError
  unexpected_server_id : ℕ → WireError
  short_length : ℕ → WireError
  read_body : WireError
  truncated_parameter : ℕ → WireError
  invalid_parameter_length : ℕ → ℕ → WireError
