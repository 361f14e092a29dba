-- ===== src/Go/Maps.antt =====
-- Maps that are only read: a list of keys and values, each key once. `none` is the missing key.
use jt400_go.Prelude.{ℕ, Option, none, some, List, [], ◌∷◌, ◌==◌, if◌then◌else◌}
use jt400_go.Go.{Bytes}
use jt400_go.Go.Strings.{bytes_eq}

unfoldable pub find_code : List (ℕ × Bytes) → ℕ → Option Bytes
find_code [] rc = none
find_code ((k, text) ∷ table) rc =
    let more = find_code table rc in if k == rc then some text else more

unfoldable pub find_id : List (Bytes × Bytes) → Bytes → Option Bytes
find_id [] id = none
find_id ((k, text) ∷ table) id =
    let more = find_id table id in if bytes_eq k id then some text else more
