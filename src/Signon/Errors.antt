-- ===== src/Signon/Errors.antt =====
-- signon/errors.go: the table of return codes and the text of an error.
use jt400_go.Prelude.{ℕ, none, some, List, [], ◌∷◌, ◌++◌}
use jt400_go.Go.{Bytes}
use jt400_go.Go.Hex.{format_hex}
use jt400_go.Go.Maps.{find_code}
use jt400_go.Go.Strings.{codes}

-- signonRCMessages
abbrev pub signon_rc_messages : List (ℕ × Bytes)
signon_rc_messages =
    (0x00020001, codes "unknown user ID")
    ∷ (0x00020002, codes "user profile disabled")
    ∷ (0x00020003, codes "user ID does not match what the server expected")
    ∷ (0x0003000B, codes "incorrect password")
    ∷ (0x0003000C, codes "incorrect password; profile will be disabled if repeated")
    ∷ (0x0003000D, codes "password expired")
    ∷ (0x0003000E, codes "password not valid for a system at this encryption level")
    ∷ []

-- AuthError.Error
unfoldable pub auth_error_text : ℕ → Bytes
unfolding find_code
auth_error_text rc = elim (find_code signon_rc_messages rc) [
  | some msg ↦ codes "signon: " ++ (msg ++ (codes " (rc=" ++ (format_hex 8 rc ++ codes ")")))
  | none ↦ codes "signon: authentication failed, rc=" ++ format_hex 8 rc
]
