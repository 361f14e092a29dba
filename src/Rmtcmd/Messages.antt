-- ===== src/Rmtcmd/Messages.antt =====
-- rmtcmd/messages.go: the message list of a reply, in its three formats.
-- A reader is its body with an offset. A nil slice and an empty one are both the empty list: no
-- caller tells them apart.
pub mod Safe
use jt400_go.Prelude.{
  ℕ, zero, suc, ◌+◌, ◌*◌, ◌%◌, Bool, true, false, not, ◌||◌, Option, none, some, List, [], ◌∷◌,
  ◌++◌, ltb, leb, ◌==◌, if◌then◌else◌, length,
}
use jt400_go.Go.{Result, ok, err, panic, stuck, ◌>>=◌, Bytes, slice, byte_at, uint16, uint32}
use jt400_go.Auth.Ebcdic.{decode_ebcdic_lossy, decode_trimmed}

-- The fields Type, Severity and so on of a Message; `id` is ID, `kind` is Type.
pub record Message : Type 0 where
  pub id : Bytes
  pub kind : ℕ
  pub severity : ℕ
  pub text : Bytes
  pub help : Bytes
  pub file_name : Bytes
  pub library_name : Bytes
  pub substitution_data : Bytes

pub data NoError : Type 0 where

-- safeSlice; `none` is a nil slice. The start of every call is not negative.
unfoldable pub safe_slice : Bytes → ℕ → ℕ → Result NoError (Option Bytes)
safe_slice b start end =
    if ltb (length b) end || ltb end start then ok none else do s ← slice b start end; ok (some s)

abbrev pub nil_bytes : Option Bytes → Bytes
nil_bytes none = []
nil_bytes (some b) = b

-- fieldReader.bytes: the bytes and the new offset.
unfoldable pub reader_bytes : Bytes → ℕ → ℕ → Result NoError (Bytes × ℕ)
reader_bytes body off n =
    if ltb (length body) (off + n)
    then ok ([], length body)
    else do b ← slice body off (off + n); ok (b, off + n)

-- fieldReader.lenPrefixed
unfoldable pub len_prefixed : Bytes → ℕ → Result NoError (Bytes × ℕ)
unfolding reader_bytes
len_prefixed body off = do
  (n4, off') ← reader_bytes body off 4
  let field : Result NoError (Bytes × ℕ) =
      if ltb (length n4) 4 then ok ([], off') else do n ← uint32 n4 0; reader_bytes body off' n
  field

-- int(t[0]&0x0F)*10 + int(t[1]&0x0F), 0 for a field shorter than two bytes.
unfoldable pub type_code : Bytes → Result NoError ℕ
type_code t =
    if ltb (length t) 2
    then ok 0
    else do t0 ← byte_at t 0; t1 ← byte_at t 1; ok (t0 % 16 * 10 + t1 % 16)

-- parseMessage06
unfoldable pub parse_message06 : Bytes → ℕ → Result NoError Message
parse_message06 body start = do
  (text_ccsid, r1) ← reader_bytes body start 4
  (data_ccsid, r2) ← reader_bytes body r1 4
  (sev, r3) ← reader_bytes body r2 2
  severity ← (if length sev == 2 then uint16 sev 0 else ok 0)
  (t, r4) ← len_prefixed body r3
  kind ← type_code t
  (id, r5) ← len_prefixed body r4
  (file_name, r6) ← len_prefixed body r5
  (library_name, r7) ← len_prefixed body r6
  (text, r8) ← len_prefixed body r7
  (substitution_data, r9) ← len_prefixed body r8
  (help, r10) ← len_prefixed body r9
  ok (record {
    id = decode_trimmed id;
    kind = kind;
    severity = severity;
    text = decode_ebcdic_lossy text;
    help = decode_ebcdic_lossy help;
    file_name = decode_trimmed file_name;
    library_name = decode_trimmed library_name;
    substitution_data = substitution_data;
  })

-- `n` fields that are read and not surfaced.
unfoldable pub skip_fields : ℕ → Bytes → ℕ → Result NoError ℕ
skip_fields zero body off = ok off
skip_fields (suc n) body off = len_prefixed body off >>= λ p. skip_fields n body p.1

-- parseMessage07
unfoldable pub parse_message07 : Bytes → ℕ → Result NoError Message
parse_message07 body entry_start = do
  (sev, r1) ← len_prefixed body (entry_start + 6)
  severity ← (if ltb (length sev) 4 then ok 0 else uint32 sev 0)
  (id, r2) ← len_prefixed body r1
  (t, r3) ← len_prefixed body r2
  kind ← type_code t
  r4 ← skip_fields 1 body r3
  (file_name, r5) ← len_prefixed body r4
  r6 ← skip_fields 1 body r5
  (library_name, r7) ← len_prefixed body r6
  r8 ← skip_fields 16 body r7
  (substitution_data, r9) ← len_prefixed body r8
  (text, r10) ← len_prefixed body r9
  (help, r11) ← len_prefixed body r10
  ok (record {
    id = decode_trimmed id;
    kind = kind;
    severity = severity;
    text = decode_ebcdic_lossy text;
    help = decode_trimmed help;
    file_name = decode_trimmed file_name;
    library_name = decode_trimmed library_name;
    substitution_data = substitution_data;
  })

abbrev pub no_message : Message
no_message = record {
  id = [];
  kind = 0;
  severity = 0;
  text = [];
  help = [];
  file_name = [];
  library_name = [];
  substitution_data = [];
}

-- The fixed fields of parseMessageClassic.
unfoldable pub classic_fixed : Bytes → ℕ → Result NoError Message
classic_fixed body off = if ltb (length body) (off + 37) then ok no_message else do
  id ← safe_slice body (off + 6) (off + 13)
  t0 ← byte_at body (off + 13)
  t1 ← byte_at body (off + 14)
  sev ← safe_slice body (off + 15) (off + 17)
  severity ← (if length (nil_bytes sev) == 2 then uint16 (nil_bytes sev) 0 else ok 0)
  file_name ← safe_slice body (off + 17) (off + 27)
  library_name ← safe_slice body (off + 27) (off + 37)
  ok (record no_message {
    id = decode_trimmed (nil_bytes id);
    kind = t0 % 16 * 10 + t1 % 16;
    severity = severity;
    file_name = decode_trimmed (nil_bytes file_name);
    library_name = decode_trimmed (nil_bytes library_name);
  })

-- parseMessageClassic
unfoldable pub parse_message_classic : Bytes → ℕ → Result NoError Message
parse_message_classic body off = do
  m ← classic_fixed body off
  lens ← safe_slice body (off + 37) (off + 41)
  let texts : Result NoError Message = if not (length (nil_bytes lens) == 4) then ok m else do
    sub_len ← uint16 (nil_bytes lens) 0
    text_len ← uint16 (nil_bytes lens) 2
    sub ← safe_slice body (off + 41) (off + 41 + sub_len)
    text ← safe_slice body (off + 41 + sub_len) (off + 41 + sub_len + text_len)
    ok (record m { substitution_data = nil_bytes sub; text = decode_ebcdic_lossy (nil_bytes text) })
  texts

-- The switch on the format byte.
unfoldable pub parse_message : ℕ → Bytes → ℕ → Result NoError Message
parse_message format body off =
    if format == 0x06
    then parse_message06 body (off + 6)
    else if format == 0x07
    then parse_message07 body off
    else parse_message_classic body off

-- One round of the loop of parseMessages: the entry's length and its message.
unfoldable pub read_entry : Bytes → ℕ → Result NoError (ℕ × Message)
read_entry body off = do
  format ← byte_at body (off + 5)
  m ← parse_message format body off
  ll ← uint32 body off
  ok (ll, m)

-- The loop of parseMessages for the `count` messages left. A panic in it is recovered, and what was
-- appended so far is the result; the Boolean says whether that happened.
unfoldable pub parse_messages_loop : ℕ → Bytes → ℕ → List Message → List Message × Bool
parse_messages_loop zero body off messages = (messages, false)
parse_messages_loop (suc count) body off messages =
    let round : List Message × Bool = elim (read_entry body off) [
      | ok (ll, m) ↦
          let more = parse_messages_loop count body (off + ll) (messages ++ (m ∷ [])) in
          if ll == 0 then (messages ++ (m ∷ []), false) else more
      | err e ↦ (messages, true)
      | panic ↦ (messages, true)
      | stuck ↦ (messages, true)
    ] in
    if leb (off + 6) (length body) then round else (messages, false)

-- parseMessages, with the recovery shown.
unfoldable pub parse_messages : Bytes → List Message × Bool
unfolding parse_messages_loop
parse_messages body =
    if ltb (length body) 4 then ([], false) else elim (uint16 {E = NoError} body 2) [
      | ok count ↦ parse_messages_loop count body 4 []
      | _ ↦ ([], true)
    ]
