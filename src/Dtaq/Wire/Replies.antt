-- ===== src/Dtaq/Wire/Replies.antt =====
-- The replies of the data queue server on any bytes, and what a read that finds nothing gives.
use jt400_go.Prelude.{
  ◌∙◌, Bool, true, false, Option, some, leb, ◌&&◌, ℕ, ◌+◌, ◌-◌, ◌≤◌, ◌≡◌, refl, ◌↔◌, inl, inr, none,
  arith, ltb, ◌==◌, Bool-cases, length, take, drop, length-take, length-drop,
}
use jt400_go.Go.{Result, ok, err, panic, stuck, ◌>>=◌, returns, Bytes, be16_at, be32_at}
use jt400_go.Go.Fields.{slice_ok, uint16_ok, uint32_ok, byte_at_ok}
use jt400_go.Go.Outcome.{returns->>=, wrap-returns}
use jt400_go.As400.Params.Walk.{decode_params-returns}
use jt400_go.As400.Datastream.{Reply}
use jt400_go.Dtaq.Wire.{
  QueueError, message_error, reply_message, check_common_reply, parse_read_reply,
  parse_attributes_reply, decode_read_reply,
}
use jt400_go.Dtaq.Wire.{Attributes}
use jt400_go.Dtaq.Wire.{server}
use jt400_go.Dtaq.Wire.{ServerError}

message_error-returns : (rc : ℕ) (msg : Bytes) → returns (message_error rc msg) ≡ true
unfolding message_error
message_error-returns rc msg =
    ground (arith, slice_ok {E = QueueError} msg 0 7, slice_ok {E = QueueError} msg 9 (length msg))

reply_message-returns : (rc : ℕ) (body : Bytes) → returns (reply_message rc body) ≡ true
unfolding reply_message
reply_message-returns rc body = ground (
  arith,
  uint32_ok {E = QueueError} body 2,
  slice_ok {E = QueueError} body 8 (8 + (be32_at body 2 - 6)),
  message_error-returns rc (take (8 + (be32_at body 2 - 6) - 8) (drop 8 body)),
)

-- checkCommonReply comes back on every reply: a message whose length does not fit is left out.
pub check_common_reply-returns : (r : Reply) → returns (check_common_reply r) ≡ true
unfolding check_common_reply
check_common_reply-returns r =
    ground
      (arith, uint16_ok {E = QueueError} r.body 0, reply_message-returns (be16_at r.body 0) r.body)

-- It gives a nil error exactly on the return code 0xF000.
pub check_common_reply_success :
    (r : Reply)
    → (check_common_reply r ≡ ok none) ↔ ((2 ≤ length r.body) × (be16_at r.body 0 ≡ 0xF000))
unfolding check_common_reply
check_common_reply_success r = (
  λ h. ground (
    arith,
    h,
    uint16_ok {E = QueueError} r.body 0,
    reply_message-returns (be16_at r.body 0) r.body,
  ),
  λ h. ground (arith, h, uint16_ok {E = QueueError} r.body 0),
)

-- parseReadReply comes back on every reply.
pub parse_read_reply-returns : (r : Reply) → returns (parse_read_reply r) ≡ true
unfolding parse_read_reply
parse_read_reply-returns r = elim (Bool-cases (r.req_rep_id == 0x8002)) [
  | inl common ↦ rw common (returns->>= _ _ (check_common_reply-returns r) λ o e. ground arith)
  | inr other ↦ rw other (elim (Bool-cases (r.req_rep_id == 0x8003)) [
    | inr strange ↦ rw strange
    | inl own ↦ rw own (elim (Bool-cases (ltb (length r.body) 38)) [
      | inl short ↦ rw short
      | inr long ↦
          rw
            (
              long,
              slice_ok {E = QueueError} r.body 2 38 (omega arith) (ground arith),
              byte_at_ok {E = QueueError} (take 36 (drop 2 r.body)) 0
                  (ground (arith, length-take 36 (drop 2 r.body), length-drop 2 r.body)),
              slice_ok {E = QueueError} r.body 38 (length r.body) (ground arith) (omega arith),
            )
            (returns->>= _ _
              (wrap-returns decode_read_reply _
                (decode_params-returns (take (length r.body - 38) (drop 38 r.body))))
              λ ps e. refl)
    ])
  ])
]

-- parseAttributesReply comes back on every reply.
pub parse_attributes_reply-returns : (r : Reply) → returns (parse_attributes_reply r) ≡ true
unfolding parse_attributes_reply
parse_attributes_reply-returns r = elim (Bool-cases (r.req_rep_id == 0x8002)) [
  | inl common ↦ rw common (returns->>= _ _ (check_common_reply-returns r) λ o e. ground arith)
  | inr other ↦ rw other (elim (Bool-cases (r.req_rep_id == 0x8001)) [
    | inr strange ↦ rw strange
    | inl own ↦ rw own (elim (Bool-cases (ltb (length r.body) 61)) [
      | inl short ↦ rw short
      | inr long ↦
          rw
            (
              long,
              byte_at_ok {E = QueueError} r.body 7 (ground arith),
              uint32_ok {E = QueueError} r.body 2 (ground arith),
              byte_at_ok {E = QueueError} r.body 6 (ground arith),
              uint16_ok {E = QueueError} r.body 8 (ground arith),
              byte_at_ok {E = QueueError} r.body 10 (ground arith),
              slice_ok {E = QueueError} r.body 11 61 (omega arith) (ground arith),
            )
            refl
    ])
  ])
]

-- Neither attributes nor an error.
abbrev pub is_nil_nil : Result QueueError (Option Attributes) → Bool
is_nil_nil (ok none) = true
is_nil_nil _ = false

abbrev nil_error : Result QueueError (Option QueueError) → Bool
nil_error (ok none) = true
nil_error _ = false

nil_error-some :
    (m : Result QueueError ServerError) → nil_error (m >>= λ e. ok (some (server e))) ≡ false
nil_error-some (ok e) = refl
nil_error-some (err e) = refl
nil_error-some panic = refl
nil_error-some stuck = refl

nil_error-check_common_reply :
    (r : Reply)
    → nil_error (check_common_reply r) ≡ (leb 2 (length r.body) && (be16_at r.body 0 == 0xF000))
unfolding check_common_reply
nil_error-check_common_reply r = elim (Bool-cases (leb 2 (length r.body))) [
  | inr short ↦ let low : ltb (length r.body) 2 ≡ true = ground arith in rw (low, short) refl
  | inl long ↦
      let high : ltb (length r.body) 2 ≡ false = ground arith in
      let code = uint16_ok {E = QueueError} r.body 0 (ground arith) in
      elim (Bool-cases (be16_at r.body 0 == 0xF000)) [
        | inl success ↦ rw (high, long, code, success) refl
        | inr other ↦
            rw (high, long, code, other) (nil_error-some (reply_message (be16_at r.body 0) r.body))
      ]
]

is_nil_nil-common :
    (m : Result QueueError (Option QueueError))
    → is_nil_nil (m >>= λ o. elim o [ none ↦ ok none | some e ↦ err e ]) ≡ nil_error m
is_nil_nil-common (ok none) = refl
is_nil_nil-common (ok (some e)) = refl
is_nil_nil-common (err e) = refl
is_nil_nil-common panic = refl
is_nil_nil-common stuck = refl

common_nil :
    (r : Reply)
    → (r.req_rep_id == 0x8002) ≡ true
    → is_nil_nil (parse_attributes_reply r) ≡ nil_error (check_common_reply r)
unfolding parse_attributes_reply
common_nil r common = rw common (is_nil_nil-common (check_common_reply r))

own_nil :
    (r : Reply) → (r.req_rep_id == 0x8002) ≡ false → is_nil_nil (parse_attributes_reply r) ≡ false
unfolding parse_attributes_reply
own_nil r other = rw other (elim (Bool-cases (r.req_rep_id == 0x8001)) [
  | inr strange ↦ rw strange
  | inl own ↦ rw own (elim (Bool-cases (ltb (length r.body) 61)) [
    | inl short ↦ rw short
    | inr long ↦
        rw
          (
            long,
            byte_at_ok {E = QueueError} r.body 7 (ground arith),
            uint32_ok {E = QueueError} r.body 2 (ground arith),
            byte_at_ok {E = QueueError} r.body 6 (ground arith),
            uint16_ok {E = QueueError} r.body 8 (ground arith),
            byte_at_ok {E = QueueError} r.body 10 (ground arith),
            slice_ok {E = QueueError} r.body 11 61 (omega arith) (ground arith),
          )
          refl
  ])
])

-- parseAttributesReply gives neither attributes nor an error exactly on a reply with the common opcode
-- whose body begins with 0xF000.
pub parse_attributes_reply_nil :
    (r : Reply)
    → is_nil_nil (parse_attributes_reply r)
      ≡ ((r.req_rep_id == 0x8002) && (leb 2 (length r.body) && (be16_at r.body 0 == 0xF000)))
parse_attributes_reply_nil r = elim (Bool-cases (r.req_rep_id == 0x8002)) [
  | inl common ↦ rw common (common_nil r common ∙ nil_error-check_common_reply r)
  | inr other ↦ rw other (own_nil r other)
]
