-- ===== src/Database/Wire/Replies.antt =====
-- parseReply on any reply, and what a reply can say at once.
use jt400_go.Prelude.{
  ℕ, ◌-◌, ◌/◌, ◌%◌, ◌≤◌, ◌≡◌, refl, ◌∙◌, inl, inr, Bool, true, false, not, ◌&&◌, ◌||◌, List, [],
  ◌∷◌, arith, ltb, ◌==◌, if◌then◌else◌, Bool-cases, length, get_or, take, drop,
}
use jt400_go.Go.{Result, ok, err, panic, stuck, ◌>>=◌, wrap, returns, Bytes, slice}
use jt400_go.Go.Fields.{slice_ok, uint16_ok, uint32_ok, byte_at_ok}
use jt400_go.Go.Outcome.{returns->>=}
use jt400_go.As400.Params.{Param}
use jt400_go.As400.Params.Walk.{decode_params-returns}
use jt400_go.As400.Datastream.{Reply}
use jt400_go.Database.Format.{FormatError}
use jt400_go.Database.Format.Safe.{parse_formats-returns}
use jt400_go.Database.Data.Bounds.{parse_result_data-returns}
use jt400_go.Database.Wire.{
  DbReply, ReplyError, compressed_data, original_format, decode_reply, bad_format, read_text,
  apply_param, apply_params, parse_reply, failed, end_of_data, cursor_closed_by_server,
}

returns-wrap : {E F A : Type 0} (f : E → F) (r : Result E A) → returns (wrap f r) ≡ returns r
returns-wrap f (ok a) = refl
returns-wrap f (err e) = refl
returns-wrap f panic = refl
returns-wrap f stuck = refl

-- Both branches of a test return.
choose :
    {E A : Type 0} (b : Bool) (x y : Result E A)
    → returns x ≡ true
    → returns y ≡ true
    → returns (if b then x else y) ≡ true
choose true x y h k = h
choose false x y h k = k

-- What an entry's block decodes to is stored in the reply.
stored-returns :
    {A : Type 0} (d : Bytes) (rep : DbReply) (m : Result FormatError A) (k : A → DbReply)
    → returns m ≡ true
    → returns (if ltb 0 (length d) then (wrap bad_format m >>= λ a. ok (k a)) else ok rep) ≡ true
stored-returns d rep m k h =
    choose (ltb 0 (length d)) (wrap bad_format m >>= λ a. ok (k a)) (ok rep)
      (returns->>= (wrap bad_format m) (λ a. ok (k a)) (returns-wrap bad_format m ∙ h) λ a e. refl)
      refl

unless_compressed-returns :
    {A : Type 0} (vlf : Bool) (d : Bytes) (rep : DbReply) (m : Result FormatError A)
    (k : A → DbReply)
    → returns m ≡ true
    → returns (
        if ltb 0 (length d)
        then (if vlf then err compressed_data else (wrap bad_format m >>= λ a. ok (k a)))
        else ok rep)
      ≡ true
unless_compressed-returns true d rep m k h = ground arith
unless_compressed-returns false d rep m k h = stored-returns d rep m k h

original-returns :
    (b : Bool) (d : Bytes) (rep : DbReply) (cp : ℕ)
    → returns
        (if b then (if ltb 0 (length d) then err (original_format cp) else ok rep) else ok rep)
      ≡ true
original-returns b d rep cp = ground arith

module _ (decode_text : ℕ → Bytes → Bytes) where
  read_text-returns :
      (skip : ℕ) (d : Bytes)
      → 2 ≤ length d
      → skip ≤ length d
      → returns (read_text decode_text skip d) ≡ true
  unfolding read_text
  read_text-returns skip d h k =
      ground (arith, uint16_ok {E = ReplyError} d 0, slice_ok {E = ReplyError} d skip (length d))

  text-returns :
      (skip : ℕ) (d : Bytes)
      → 2 ≤ skip
      → (rep : DbReply) (k : Bytes → DbReply)
      → returns
          (if ltb skip (length d) then (read_text decode_text skip d >>= λ t. ok (k t)) else ok rep)
        ≡ true
  text-returns skip d two rep k = elim (Bool-cases (ltb skip (length d))) [
    | inl long ↦
        rw long
          (returns->>= _ _ (read_text-returns skip d (ground arith) (ground arith)) λ t e. refl)
    | inr short ↦ rw short
  ]

  attributes-returns :
      (d : Bytes) (rep : DbReply) (k : Bytes → DbReply)
      → returns (
          if ltb 2 (length d)
          then (slice {E = ReplyError} d 2 (length d) >>= λ t. ok (k t))
          else ok rep)
        ≡ true
  attributes-returns d rep k = ground (arith, slice_ok {E = ReplyError} d 2 (length d))

  apply_param-returns :
      (vlf : Bool) (rep : DbReply) (p : Param) → returns (apply_param decode_text vlf rep p) ≡ true
  unfolding apply_param
  apply_param-returns vlf rep p =
      choose (p.code_point == 0x3801) _ _ (text-returns 2 p.content (omega arith) rep _) (
        choose (p.code_point == 0x3802) _ _ (text-returns 4 p.content (omega arith) rep _) (
          choose (p.code_point == 0x3804) _ _ (attributes-returns p.content rep _) (
            choose (p.code_point == 0x3807) _ _ refl (
              choose (p.code_point == 0x380C) _ _
                (stored-returns p.content rep _ _ (parse_formats-returns decode_text p.content).0)
                (choose (p.code_point == 0x380D) _ _
                  (stored-returns p.content rep _ _ (parse_formats-returns decode_text p.content).0)
                  (choose (p.code_point == 0x3812) _ _
                    (stored-returns p.content rep _ _
                      (parse_formats-returns decode_text p.content).1)
                    (choose (p.code_point == 0x3813) _ _
                      (stored-returns p.content rep _ _
                        (parse_formats-returns decode_text p.content).1)
                      (choose (p.code_point == 0x380E) _ _
                        (unless_compressed-returns vlf p.content rep _ _
                          (parse_result_data-returns p.content))
                        (original-returns _ p.content rep p.code_point)))))))))

  apply_params-returns :
      (vlf : Bool) (rep : DbReply) (ps : List Param)
      → returns (apply_params decode_text vlf rep ps) ≡ true
  unfolding apply_params
  apply_params-returns vlf rep [] = refl
  apply_params-returns vlf rep (p ∷ ps) =
      returns->>= _ _ (apply_param-returns vlf rep p) λ rep' e. apply_params-returns vlf rep' ps

  -- On every reply parseReply returns, whatever its entries hold: a truncated or oversized format,
  -- block or entry is an error.
  pub parse_reply-returns : (r : Reply) → returns (parse_reply decode_text r) ≡ true
  unfolding parse_reply
  parse_reply-returns r = elim (Bool-cases (ltb (length r.body) 20)) [
    | inl short ↦ rw short
    | inr long ↦
        rw
          (
            long,
            byte_at_ok {E = ReplyError} r.body 4 (ground arith),
            uint16_ok {E = ReplyError} r.body 0 (ground arith),
            uint16_ok {E = ReplyError} r.body 14 (ground arith),
            uint32_ok {E = ReplyError} r.body 16 (ground arith),
            slice_ok {E = ReplyError} r.body 20 (length r.body) (ground arith) (omega arith),
          )
          (elim (Bool-cases (get_or r.body 4 0 / 128 % 2 == 0)) [
            | inl plain ↦ rw plain (
                returns->>= _ _
                  (returns-wrap decode_reply _
                    ∙ decode_params-returns (take (length r.body - 20) (drop 20 r.body)))
                  λ ps e. apply_params-returns _ _ ps)
            | inr packed ↦ rw packed
          ])
  ]

-- A reply that ends the data has not failed, and one that closed the cursor ends the data.
pub reply_states :
    (r : DbReply)
    → ((end_of_data r && failed r) ≡ false)
      × ((not (cursor_closed_by_server r) || end_of_data r) ≡ true)
unfolding failed end_of_data cursor_closed_by_server
reply_states r = (ground arith, ground arith)
