-- ===== src/Database/Ccsid.antt =====
-- database/ccsid.go: the registered converters, and texts coded with them.
-- An Encoding of golang.org/x/text is the pair of what its encoder and its decoder make of a text or
-- a byte slice; the converters of the built-in table are arguments. The lock is no state.
use jt400_go.Prelude.{
  ℕ, ◌≡◌, refl, true, ◌||◌, Option, none, some, List, [], ◌∷◌, arith, ◌==◌, if◌then◌else◌,
}
use jt400_go.Go.{Result, ok, err, ◌>>=◌, returns, Bytes}

pub record Encoding : Type 0 where
  pub encode : Bytes → Option Bytes
  pub decode : Bytes → Option Bytes

pub data TextError : Type 0 where
  no_converter cannot_encode cannot_decode : ℕ → TextError

-- The map ccsids; a later registration stands in front.
abbrev pub Registry : Type 0
Registry = List (ℕ × Encoding)

abbrev pub ccsid_ebcdic37 : ℕ
ccsid_ebcdic37 = 37

abbrev pub ccsid_utf16 : ℕ
ccsid_utf16 = 1200

abbrev pub ccsid_ucs2 : ℕ
ccsid_ucs2 = 13488

abbrev pub ccsid_utf8 : ℕ
ccsid_utf8 = 1208

abbrev pub ccsid_binary : ℕ
ccsid_binary = 65535

abbrev pub client_ccsid : ℕ
client_ccsid = ccsid_ucs2

-- The table that ccsids starts with.
unfoldable pub ccsids : Encoding → Encoding → Encoding → Encoding → Encoding → Registry
ccsids code_page037 code_page1047 code_page1140 utf16 utf8 =
    (37, code_page037)
    ∷ (1047, code_page1047)
    ∷ (1140, code_page1140)
    ∷ (ccsid_utf16, utf16)
    ∷ (ccsid_ucs2, utf16)
    ∷ (ccsid_utf8, utf8)
    ∷ (ccsid_binary, record { encode = λ s. some s; decode = λ s. some s })
    ∷ []

-- RegisterCCSID
unfoldable pub register_ccsid : Registry → ℕ → Encoding → Registry
register_ccsid registry ccsid enc = (ccsid, enc) ∷ registry

-- lookupCCSID
unfoldable pub lookup_ccsid : Registry → ℕ → Result TextError Encoding
lookup_ccsid [] ccsid = err (no_converter ccsid)
lookup_ccsid ((k, enc) ∷ registry) ccsid =
    if k == ccsid then ok enc else lookup_ccsid registry ccsid

-- The outcome of a conversion.
abbrev converted : TextError → Option Bytes → Result TextError Bytes
converted e none = err e
converted e (some b) = ok b

-- encodeString
unfoldable pub encode_string : Registry → ℕ → Bytes → Result TextError Bytes
unfolding lookup_ccsid
encode_string registry ccsid s =
    lookup_ccsid registry ccsid >>= λ enc. converted (cannot_encode ccsid) (enc.encode s)

-- decodeString
unfoldable pub decode_string : Registry → ℕ → Bytes → Result TextError Bytes
unfolding lookup_ccsid
decode_string registry ccsid b =
    lookup_ccsid registry ccsid >>= λ enc. converted (cannot_decode ccsid) (enc.decode b)

-- blank
unfoldable pub blank : Registry → ℕ → Result TextError Bytes
unfolding encode_string
blank registry ccsid = encode_string registry ccsid (b' ' ∷ [])

-- The text of a result, empty for an error.
abbrev pub text_or_empty : Result TextError Bytes → Bytes
text_or_empty (ok s) = s
text_or_empty _ = []

-- decodeServerText
unfoldable pub decode_server_text : Registry → ℕ → Bytes → Bytes
unfolding decode_string
decode_server_text registry ccsid b =
    let id = if ccsid == 0 || ccsid == ccsid_binary then ccsid_ebcdic37 else ccsid in
    elim (decode_string registry id b) [
      | ok s ↦ s
      | _ ↦ text_or_empty (decode_string registry ccsid_ebcdic37 b)
    ]

lookup_ccsid-returns :
    (registry : Registry) (ccsid : ℕ) → returns (lookup_ccsid registry ccsid) ≡ true
unfolding lookup_ccsid
lookup_ccsid-returns [] ccsid = refl
lookup_ccsid-returns ((k, enc) ∷ registry) ccsid =
    ground (arith, lookup_ccsid-returns registry ccsid)

pub encode_string-returns :
    (registry : Registry) (ccsid : ℕ) (s : Bytes) → returns (encode_string registry ccsid s) ≡ true
unfolding encode_string
encode_string-returns registry ccsid s = ground (arith, lookup_ccsid-returns registry ccsid)

pub decode_string-returns :
    (registry : Registry) (ccsid : ℕ) (b : Bytes) → returns (decode_string registry ccsid b) ≡ true
unfolding decode_string
decode_string-returns registry ccsid b = ground (arith, lookup_ccsid-returns registry ccsid)
