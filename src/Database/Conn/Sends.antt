-- ===== src/Database/Conn/Sends.antt =====
-- What send and call leave of any session, usable or not.
use jt400_go.Prelude.{ℕ, ◌≡◌, refl, ◌⊎◌, inl, inr, ◌||◌, Bool-cases, [], ◌∷◌, ◌++◌, arith}
use jt400_go.Go.{Bytes}
use jt400_go.Database.Wire.{DbRequest}
use jt400_go.Database.Conn.{Session, usable, db_send, db_call}
use jt400_go.Database.Conn.Calls.{db_call_unusable, db_call_usable}

-- At most this request was handed on.
abbrev pub AtMost : Session → DbRequest → Session → Type 0
AtMost s req s' = (s'.log ≡ s.log) ⊎ (s'.log ≡ s.log ++ (req ∷ []))

pub db_send-ids : (s : Session) (req : DbRequest) → (db_send s req).0.ids ≡ s.ids
unfolding db_send usable
db_send-ids s req = ground arith

module _ (decode_text : ℕ → Bytes → Bytes) where
  pub db_call-ids : (s : Session) (req : DbRequest) → (db_call decode_text s req).0.ids ≡ s.ids
  db_call-ids s req = elim (Bool-cases (s.closed || s.broken)) [
    | inl bad ↦ rw (db_call_unusable decode_text s req bad).0 refl
    | inr good ↦ (db_call_usable decode_text s req (ground arith) (ground arith)).3.2
  ]

  pub db_call-AtMost : (s : Session) (req : DbRequest) → AtMost s req (db_call decode_text s req).0
  db_call-AtMost s req = elim (Bool-cases (s.closed || s.broken)) [
    | inl bad ↦ inl (rw (db_call_unusable decode_text s req bad).0 refl)
    | inr good ↦ inr (db_call_usable decode_text s req (ground arith) (ground arith)).1
  ]
