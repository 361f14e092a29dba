-- ===== src/As400/Datastream.antt =====
-- as400/datastream.go and as400/serverid.go: requests, replies and their 20-byte header.
-- An io.Reader is the list of the bytes that it will still deliver before it ends or fails.
pub mod Laws
use jt400_go.Prelude.{
  ℕ, ◌+◌, ◌-◌, ◌*◌, ◌/◌, ◌%◌, ◌^◌, not, Option, none, some, ◌++◌, ltb, leb, ◌==◌, if◌then◌else◌,
  length, take, drop,
}
use jt400_go.Go.{Result, ok, err, ◌>>=◌, Bytes, byte_at, uint16, uint32, be16, be32}
use jt400_go.As400.Error.{WireError, read_header, unexpected_server_id, short_length, read_body}

abbrev pub header_length : ℕ
header_length = 20

abbrev pub server_signon : ℕ
server_signon = 0xE009

abbrev pub server_data_queue : ℕ
server_data_queue = 0xE007

abbrev pub server_remote_command : ℕ
server_remote_command = 0xE008

abbrev pub server_database : ℕ
server_database = 0xE004

pub record Request : Type 0 where
  pub server_id : ℕ
  pub header_id : ℕ
  pub correlation : ℕ
  pub template_len : ℕ
  pub req_rep_id : ℕ
  pub body : Bytes

pub record Reply : Type 0 where
  pub header_id : ℕ
  pub server_id : ℕ
  pub correlation : ℕ
  pub template_len : ℕ
  pub req_rep_id : ℕ
  pub body : Bytes

-- AttrHeaderID: uint16(clientAttr) << 8
unfoldable pub attr_header_id : ℕ → ℕ
attr_header_id client_attr = client_attr * 256 % 2 ^ 16

-- Request.Encode. Bytes 8 to 11 stay zero.
unfoldable pub encode : Request → Bytes
encode r =
    be32 (header_length + length r.body)
    ++ (be16 r.header_id
        ++ (be16 r.server_id
            ++ (be32 0
                ++ (be32 r.correlation ++ (be16 r.template_len ++ (be16 r.req_rep_id ++ r.body))))))

-- Reply.ClientAttr and Reply.ServerAttr: byte(HeaderID >> 8) and byte(HeaderID)
unfoldable pub client_attr : Reply → ℕ
client_attr r = r.header_id / 256 % 256

unfoldable pub server_attr : Reply → ℕ
server_attr r = r.header_id % 256

-- Reply.RC: the uint32 at the front of the body, if there is one.
unfoldable pub return_code : {E : Type 0} → Reply → Result E (Option ℕ)
return_code r = if ltb (length r.body) 4 then ok none else do rc ← uint32 r.body 0; ok (some rc)

-- io.ReadFull(r, buf) for a buffer of n bytes: the bytes and what the reader still holds.
unfoldable pub read_full : {E : Type 0} → E → ℕ → Bytes → Result E (Bytes × Bytes)
read_full e n s = if leb n (length s) then ok (take n s, drop n s) else err e

-- ReadReply, with the reader after it.
unfoldable pub read_reply : Bytes → Result WireError (Reply × Bytes)
read_reply s = do
  (hdr, s') ← read_full read_header header_length s
  b6 ← byte_at hdr 6
  len ← uint32 hdr 0
  let checked =
      if not (b6 == 0xE0)
      then err (unexpected_server_id b6)
      else if ltb len header_length
      then err (short_length len)
      else read_full read_body (len - header_length) s'
  (body, s'') ← checked
  header_id ← uint16 hdr 4
  server_id ← uint16 hdr 6
  correlation ← uint32 hdr 12
  template_len ← uint16 hdr 16
  req_rep_id ← uint16 hdr 18
  ok (
    record {
      header_id = header_id;
      server_id = server_id;
      correlation = correlation;
      template_len = template_len;
      req_rep_id = req_rep_id;
      body = body;
    },
    s'',
  )
