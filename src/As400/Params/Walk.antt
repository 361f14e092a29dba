-- ===== src/As400/Params/Walk.antt =====
-- DecodeParams on any input: it comes back, with the entries or an error.
use jt400_go.Prelude.{
  ℕ, zero, suc, ◌+◌, ◌-◌, ◌≤◌, ◌≡◌, true, List, [], ◌∷◌, ◌++◌, arith, length, take, drop,
}
use jt400_go.Go.{returns, Bytes, be16_at, be32_at}
use jt400_go.Go.Fields.{slice_ok, uint16_ok, uint32_ok}
use jt400_go.As400.Error.{WireError}
use jt400_go.As400.Params.{Param, decode_params_loop, decode_params}

decode_params_loop-returns :
    (fuel : ℕ) (b : Bytes) (offset : ℕ) (params : List Param)
    → length b ≤ offset + fuel
    → returns (decode_params_loop fuel b offset params) ≡ true
unfolding decode_params_loop
decode_params_loop-returns zero b offset params h = ground arith
decode_params_loop-returns (suc fuel) b offset params h = ground (
  arith,
  uint32_ok {E = WireError} b offset,
  uint16_ok {E = WireError} b (offset + 4),
  slice_ok {E = WireError} b (offset + 6) (offset + be32_at b offset),
  decode_params_loop-returns fuel b (offset + be32_at b offset) (
      params
      ++ (record {
        code_point = be16_at b (offset + 4);
        content = take (offset + be32_at b offset - (offset + 6)) (drop (offset + 6) b);
      }
          ∷ [])),
)

-- On every byte slice DecodeParams returns: no slice expression leaves the slice, and the walk
-- ends within one round for each byte.
pub decode_params-returns : (b : Bytes) → returns (decode_params b) ≡ true
unfolding decode_params
decode_params-returns b = decode_params_loop-returns (length b) b 0 [] (omega arith)
