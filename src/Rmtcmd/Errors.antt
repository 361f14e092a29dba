-- ===== src/Rmtcmd/Errors.antt =====
-- rmtcmd/errors.go: the text of a return code.
use jt400_go.Prelude.{ℕ, ◌&&◌, ◌++◌, ltb, leb, ◌==◌, if◌then◌else◌}
use jt400_go.Go.{Bytes}
use jt400_go.Go.Hex.{format_hex}
use jt400_go.Go.Strings.{codes}

-- A text around the return code.
abbrev around : Bytes → ℕ → Bytes → Bytes
around before rc behind =
    codes "rmtcmd: " ++ (before ++ (codes " (rc=" ++ (format_hex 4 rc ++ (codes ")" ++ behind))))

-- Error.Error: the first case that fits.
unfoldable pub error_text : ℕ → Bytes
error_text rc =
    let see_list = codes "; see the returned message list" in
    if rc == 0x0400
    then around (codes "command failed") rc see_list
    else if rc == 0x0401
    then around (codes "invalid CCSID") rc (codes "")
    else if rc == 0x0500
    then around (codes "program could not be resolved") rc (codes "")
    else if rc == 0x0501
    then around (codes "program call error") rc see_list
    else if leb 0x0100 rc && ltb rc 0x0200
    then around (codes "exchange-attributes error") rc (codes "")
    else if leb 0x0200 rc && ltb rc 0x0300
    then around (codes "protocol error") rc (codes "")
    else if leb 0x0300 rc && ltb rc 0x0400
    then around (codes "exit program error") rc (codes "")
    else around (codes "request failed") rc (codes "")
