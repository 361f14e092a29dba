-- ===== src/Database/Setup/Runs.antt =====
-- The set-up of a connection on concrete replies.
use jt400_go.Prelude.{◌==◌, ◌*◌, ◌+◌, ◌≡◌, refl, [], ◌∷◌, ◌++◌, replicate, some}
use jt400_go.Prelude.Int.{pos}
use jt400_go.Go.{Bytes, slice, byte_at, uint16, be16_at}
use jt400_go.Go.Strings.{trim, codes, trim_left, trim_right}
use jt400_go.Go.Numbers.{parse_nat, parse_digits}
use jt400_go.Database.Setup.{parse_server_attributes, level_of, read_job, job_id_of, atoi}
use jt400_go.Database.Ccsid.{Registry, decode_server_text, decode_string, lookup_ccsid}
use jt400_go.Database.Setup.{ok}

-- V7R4M0 with functional level 10, in a code page that is its own text.
abbrev sent_attributes : Bytes
sent_attributes =
    replicate 19 0
    ++ (0 ∷ 37 ∷ replicate 29 0
        ++ (codes "V7R4M0  10" ++ (replicate 28 0 ++ codes "JOB       USER      123456")))

abbrev same : Registry
same = (37, record { encode = λ s. some s; decode = λ s. some s }) ∷ []

abbrev trim_space : Bytes → Bytes
trim_space s = trim (λ c. c == b' ') s

server_attributes_run :
    parse_server_attributes same trim_space sent_attributes
    ≡ ok (record {
      server_ccsid = 37;
      vrm = 7 * 65536 + 4 * 256;
      functional_level = pos 10;
      job_id = codes "123456/USER/JOB";
    })
unfolding parse_server_attributes level_of read_job job_id_of atoi parse_nat parse_digits slice
    byte_at uint16 be16_at decode_server_text decode_string lookup_ccsid trim trim_left trim_right
server_attributes_run = refl
