-- ===== src/As400/Params.antt =====
-- as400/params.go: the LL/CP encoded fields, walked by an offset into the whole slice.
pub mod Walk
pub mod Laws
use jt400_go.Prelude.{
  ℕ, zero, suc, ◌+◌, ◌||◌, Option, none, some, List, [], ◌∷◌, ◌++◌, ltb, ◌==◌, if◌then◌else◌,
  length,
}
use jt400_go.Go.{Result, ok, err, stuck, ◌>>=◌, Bytes, slice, uint16, uint32, be16, be32}
use jt400_go.As400.Error.{WireError, truncated_parameter, invalid_parameter_length}

-- `content` is the field Data.
pub record Param : Type 0 where
  pub code_point : ℕ
  pub content : Bytes

-- One entry: uint32(6 + len(p.Data)), the code point, the data.
unfoldable pub encode_param : Param → Bytes
encode_param p = be32 (6 + length p.content) ++ (be16 p.code_point ++ p.content)

unfoldable pub encode_params : List Param → Bytes
encode_params [] = []
encode_params (p ∷ ps) = encode_param p ++ encode_params ps

-- The loop of DecodeParams. The code's conditions are in the code's order; a round takes six
-- bytes at least, so one round for each byte is enough.
unfoldable pub decode_params_loop : ℕ → Bytes → ℕ → List Param → Result WireError (List Param)
decode_params_loop zero b offset params = if ltb offset (length b) then stuck else ok params
decode_params_loop (suc fuel) b offset params =
    let round : Result WireError (List Param) =
      if ltb (length b) (offset + 6) then err (truncated_parameter offset) else do
        ll ← uint32 b offset
        let next =
            if ltb ll 6 || ltb (length b) (offset + ll)
            then err (invalid_parameter_length ll offset)
            else do
              cp ← uint16 b (offset + 4)
              d ← slice b (offset + 6) (offset + ll)
              decode_params_loop fuel b (offset + ll)
                  (params ++ (record { code_point = cp; content = d } ∷ []))
        next
    in if ltb offset (length b) then round else ok params

unfoldable pub decode_params : Bytes → Result WireError (List Param)
unfolding decode_params_loop
decode_params b = decode_params_loop (length b) b 0 []

-- Find: the data of the first entry with the code point.
unfoldable pub find : List Param → ℕ → Option Bytes
find [] cp = none
find (p ∷ ps) cp = if p.code_point == cp then some p.content else find ps cp
