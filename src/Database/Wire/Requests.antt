-- ===== src/Database/Wire/Requests.antt =====
-- What request.encode writes, read back by the parser of parameters.
use jt400_go.Prelude.{
  ◌^◌, ◌<◌, ◌≡◌, refl, sym, ap, ◌∙◌, [], ◌++◌, append-nil, length, length-append, All,
}
use jt400_go.Go.{ok, ◌>>=◌, Bytes, slice, uint16, uint32, be16, be32}
use jt400_go.Go.Fields.{slice-append, uint16-append, uint32-append}
use jt400_go.As400.Params.{encode_params, decode_params}
use jt400_go.As400.Error.{WireError}
use jt400_go.As400.Params.Laws.{Fits, decode_params-encode_params}
use jt400_go.Database.Wire.{DbRequest, encode_template, encode_request}

-- What stands behind the first bytes of a list is the rest of it.
rest-of-append :
    (pre xs : Bytes) → slice {E = WireError} (pre ++ xs) (length pre) (length (pre ++ xs)) ≡ ok xs
rest-of-append pre xs =
    ap (λ ys. slice {E = WireError} (pre ++ ys) (length pre) (length (pre ++ xs)))
      (sym (append-nil xs))
    ∙ slice-append pre xs [] (length pre) (length (pre ++ xs)) refl (length-append pre xs)

-- The template up to the count of parameters.
abbrev front : DbRequest → Bytes
front r =
    be32 r.ors
    ++ (be32 0
        ++ (be16 r.rpb_id ++ (be16 r.rpb_id ++ (be16 0 ++ (be16 r.rpb_id ++ be16 r.pm_handle)))))

-- A request's body is its 20-byte template and its parameters: behind the template, DecodeParams
-- reads the added parameters in order. The template counts them, and begins
-- with the bitmap. Each entry's length and code point, their number and the bitmap fit their fields.
pub decode_params-encode_request :
    (r : DbRequest)
    → All Fits r.params
    → length r.params < 2 ^ 16
    → r.ors < 2 ^ 32
    → ((slice {E = WireError} (encode_request r).body 20 (length (encode_request r).body)
          >>= decode_params)
        ≡ ok r.params)
      × (uint16 {E = WireError} (encode_request r).body 18 ≡ ok (length r.params))
      × (uint32 {E = WireError} (encode_request r).body 0 ≡ ok (r.ors))
unfolding encode_request encode_template
decode_params-encode_request r fit count ors = (
  ap (λ m. m >>= decode_params) (rest-of-append (encode_template r) (encode_params r.params))
      ∙ decode_params-encode_params r.params fit,
  uint16-append (front r) (encode_params r.params) (length r.params) 18 refl count,
  uint32-append [] _ r.ors 0 refl ors,
)
