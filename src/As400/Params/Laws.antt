-- ===== src/As400/Params/Laws.antt =====
-- DecodeParams against EncodeParams.
use jt400_go.Prelude.{
  ℕ, zero, suc, ◌+◌, ◌^◌, ◌≤◌, ◌<◌, ◌≡◌, refl, ap, ◌∙◌, List, [], ◌∷◌, ◌++◌, append-nil,
  append_assoc, arith, length, length-append, All,
}
use jt400_go.Go.{ok, Bytes, slice, uint16, uint32, be16, be32}
use jt400_go.Go.Fields.{slice-append, uint16-append, uint32-append}
use jt400_go.As400.Error.{WireError}
use jt400_go.As400.Params.{Param, encode_param, encode_params, decode_params_loop, decode_params}

-- An entry whose length and code point fit their fields.
abbrev pub Fits : Param → Type 0
Fits p = (6 + length p.content < 2 ^ 32) × (p.code_point < 2 ^ 16)

length-encode_param : (p : Param) → length (encode_param p) ≡ 6 + length p.content
unfolding encode_param
length-encode_param p = omega arith

pub length-encode_params-le : (ps : List Param) → length ps ≤ length (encode_params ps)
unfolding encode_params
length-encode_params-le [] = omega arith
length-encode_params-le (p ∷ ps) = omega (
  arith,
  length-append (encode_param p) (encode_params ps),
  length-encode_param p,
  length-encode_params-le ps,
)

module _ (pre rest : Bytes) (p : Param) (offset : ℕ) (at_pre : offset ≡ length pre)
    (fits : Fits p) where
  abbrev whole : Bytes
  whole = pre ++ (encode_param p ++ rest)

  read_length : uint32 {E = WireError} whole offset ≡ ok (6 + length p.content)
  unfolding encode_param
  read_length = uint32-append pre (be16 p.code_point ++ (p.content ++ rest)) _ offset at_pre fits.0

  read_code_point : uint16 {E = WireError} whole (offset + 4) ≡ ok p.code_point
  unfolding encode_param
  read_code_point =
      rw
        (← append_assoc pre (be32 (6 + length p.content))
          (be16 p.code_point ++ (p.content ++ rest)))
        (uint16-append (pre ++ be32 (6 + length p.content)) (p.content ++ rest) p.code_point
          (offset + 4) (omega (arith, length-append pre (be32 (6 + length p.content)))) fits.1)

  read_content :
      slice {E = WireError} whole (offset + 6) (offset + (6 + length p.content)) ≡ ok p.content
  unfolding encode_param
  read_content =
      rw (← append_assoc pre (be32 (6 + length p.content) ++ be16 p.code_point) (p.content ++ rest))
        (slice-append (pre ++ (be32 (6 + length p.content) ++ be16 p.code_point)) p.content rest
          (offset + 6) _
          (omega (arith, length-append pre (be32 (6 + length p.content) ++ be16 p.code_point)))
          (omega arith))

  length-whole : length whole ≡ offset + (6 + length p.content) + length rest
  length-whole = omega (
    arith,
    length-append pre (encode_param p ++ rest),
    length-append (encode_param p) rest,
    length-encode_param p,
  )

  -- One round over an encoded entry, whatever stands before and behind it.
  decode_params_loop_step :
      (fuel : ℕ) (params : List Param)
      → decode_params_loop (suc fuel) whole offset params
        ≡ decode_params_loop fuel whole (offset + (6 + length p.content)) (params ++ (p ∷ []))
  unfolding decode_params_loop
  decode_params_loop_step fuel params =
      ground (arith, read_length, read_code_point, read_content, length-whole)

decode_params_loop-encode_params :
    (ps : List Param) (fuel : ℕ) (pre : Bytes) (offset : ℕ) (params : List Param)
    → offset ≡ length pre
    → length ps ≤ fuel
    → All Fits ps
    → decode_params_loop fuel (pre ++ encode_params ps) offset params ≡ ok (params ++ ps)
unfolding encode_params
decode_params_loop-encode_params [] zero pre offset params e h fit =
    rw (append-nil, append-nil) (unfold decode_params_loop in ground arith)
decode_params_loop-encode_params [] (suc fuel) pre offset params e h fit =
    rw (append-nil, append-nil) (unfold decode_params_loop in ground arith)
decode_params_loop-encode_params (p ∷ ps) zero pre offset params e h fit = absurd (omega arith)
decode_params_loop-encode_params (p ∷ ps) (suc fuel) pre offset params e h fit =
    decode_params_loop_step pre (encode_params ps) p offset e fit.0 fuel params
    ∙ rw (← append_assoc pre (encode_param p) (encode_params ps)) (
        decode_params_loop-encode_params ps fuel (pre ++ encode_param p) _ (params ++ (p ∷ []))
          (omega (arith, length-append pre (encode_param p), length-encode_param p)) (omega arith)
          fit.1)
    ∙ ap ok (append_assoc params (p ∷ []) ps)

-- DecodeParams reads back exactly the entries that EncodeParams wrote, in their order, if each
-- entry's length fits 32 bits and its code point 16.
pub decode_params-encode_params :
    (ps : List Param) → All Fits ps → decode_params (encode_params ps) ≡ ok ps
unfolding decode_params
decode_params-encode_params ps fit =
    decode_params_loop-encode_params ps _ [] 0 [] refl (length-encode_params-le ps) fit
