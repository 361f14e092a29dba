-- ===== src/Dtaq/Errors.antt =====
-- dtaq/errors.go: the tables of return codes and messages, and the text of an error.
use jt400_go.Prelude.{ℕ, none, some, List, [], ◌∷◌, ◌++◌, if◌then◌else◌}
use jt400_go.Go.{Bytes}
use jt400_go.Go.Hex.{format_hex}
use jt400_go.Go.Strings.{codes, is_nil}
use jt400_go.Dtaq.Wire.{ServerError}
use jt400_go.Go.Maps.{find_code}
use jt400_go.Go.Maps.{find_id}

-- rcMessages
abbrev pub rc_messages : List (ℕ × Bytes)
rc_messages =
    (0xF002, codes "protocol error")
    ∷ (0xF003, codes "syntax error")
    ∷ (0xF004, codes "queue destroyed")
    ∷ (0xF005, codes "unsupported entry or queue length")
    ∷ (0xF006, codes "no data available")
    ∷ (0xF007, codes "invalid data stream level")
    ∷ (0xF008, codes "invalid VRM")
    ∷ (0xF009, codes "rejected by exit program")
    ∷ (0xF00A, codes "exit program not authorized")
    ∷ (0xF00B, codes "exit program not found")
    ∷ (0xF00D, codes "exit program failed")
    ∷ (0xF00E, codes "invalid number of exit programs")
    ∷ []

-- cpfMessages
abbrev pub cpf_messages : List (Bytes × Bytes)
cpf_messages =
    (codes "CPF9810", codes "library not found")
    ∷ (codes "CPF9801", codes "object not found")
    ∷ (codes "CPF2105", codes "object not found")
    ∷ (codes "CPF9802", codes "object authority insufficient")
    ∷ (codes "CPF2189", codes "object authority insufficient")
    ∷ (codes "CPF9820", codes "library authority insufficient")
    ∷ (codes "CPF2182", codes "library authority insufficient")
    ∷ (codes "CPF9870", codes "object already exists")
    ∷ (codes "CPF9502", codes "queue is not a keyed data queue")
    ∷ (codes "CPF9506", codes "queue is a keyed data queue")
    ∷ []

-- The end of every text: " (rc=0x....)"
abbrev rc_suffix : ℕ → Bytes
rc_suffix rc = codes " (rc=" ++ (format_hex 4 rc ++ codes ")")

-- Error.Error
unfoldable pub error_text : ServerError → Bytes
unfolding find_code find_id
error_text e =
    if is_nil e.message_id
    then elim (find_code rc_messages e.rc) [
      | some desc ↦ codes "dtaq: " ++ (desc ++ rc_suffix e.rc)
      | none ↦ codes "dtaq: request failed, rc=" ++ format_hex 4 e.rc
    ]
    else codes "dtaq: "
      ++ (e.message_id
          ++ (codes ": "
              ++ ((elim (find_id cpf_messages e.message_id) [ some desc ↦ desc | none ↦ e.message ])
                  ++ rc_suffix e.rc)))
