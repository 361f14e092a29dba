-- ===== src/Dtaq/Queue.antt =====
-- dtaq/queue.go: the methods of a Queue, on the connection of its client. strings.ToUpper is the
-- parameter `to_upper`. A nil key is none.
pub mod Laws
use jt400_go.Prelude.{ℕ, Bool, true, false, Option, none, some, []}
use jt400_go.Prelude.Int.{ℤ}
use jt400_go.Go.{Result, ok, err, panic, stuck, wrap, Bytes}
use jt400_go.As400.Conn.{Connection, Env}
use jt400_go.As400.Service.{Exchanged, asked}
use jt400_go.Dtaq.Wire.{
  CreateOptions, Entry, Attributes, build_queue_only_request, build_create_request,
  build_clear_request, build_write_request, build_read_request, parse_read_reply,
  parse_attributes_reply,
}
use jt400_go.Dtaq.Client.{
  ClientError, queue, calling, common_reply, create_call, delete_call, clear_call, write_call,
  read_call, read_keyed_call, attributes_call,
}

-- Queue, without its client.
pub record Queue : Type 0 where
  pub library : Bytes
  pub name : Bytes

module _ (to_upper : Bytes → Bytes) (q : Queue) (c : Connection) (env : Env) where
  open q use {library, name}

  unfoldable pub create : CreateOptions → Exchanged ClientError (Unit {0})
  unfolding asked common_reply
  create opts =
      asked (calling create_call) (wrap queue (build_create_request to_upper library name opts))
        common_reply c env

  unfoldable pub delete : Exchanged ClientError (Unit {0})
  unfolding asked common_reply
  delete =
      asked (calling delete_call)
        (wrap queue (build_queue_only_request to_upper 0x0004 library name)) common_reply c env

  -- clear, with a key or without
  unfoldable pub clear_with : Bytes → Bool → Exchanged ClientError (Unit {0})
  unfolding asked common_reply
  clear_with key has_key =
      asked (calling clear_call)
        (wrap queue (build_clear_request to_upper library name key has_key)) common_reply c env

  -- Clear
  unfoldable pub clear : Exchanged ClientError (Unit {0})
  unfolding clear_with
  clear = clear_with [] false

  unfoldable pub clear_key : Bytes → Exchanged ClientError (Unit {0})
  unfolding clear_with
  clear_key key = clear_with key true

  -- write, with a key or without
  unfoldable pub write_with : Option Bytes → Bytes → Exchanged ClientError (Unit {0})
  unfolding asked common_reply
  write_with key entry =
      asked (calling write_call) (wrap queue (build_write_request to_upper library name key entry))
        common_reply c env

  -- Write
  unfoldable pub write_entry : Bytes → Exchanged ClientError (Unit {0})
  unfolding write_with
  write_entry entry = write_with none entry

  -- WriteKeyed; a nil key makes it Write.
  unfoldable pub write_keyed : Option Bytes → Bytes → Exchanged ClientError (Unit {0})
  unfolding write_with
  write_keyed key entry = write_with key entry

  -- Read
  unfoldable pub read_entry : ℤ → Bool → Exchanged ClientError (Option Entry)
  unfolding asked
  read_entry wait_seconds peek =
      asked (calling read_call)
        (wrap queue (build_read_request to_upper library name false [] [] wait_seconds peek))
        (λ reply. wrap queue (parse_read_reply reply)) c env

  unfoldable pub read_keyed : Bytes → Bytes → ℤ → Bool → Exchanged ClientError (Option Entry)
  unfolding asked
  read_keyed search_type key wait_seconds peek =
      asked (calling read_keyed_call)
        (wrap queue
          (build_read_request to_upper library name true search_type key wait_seconds peek))
        (λ reply. wrap queue (parse_read_reply reply)) c env

  -- Attributes
  unfoldable pub attributes : Exchanged ClientError (Option Attributes)
  unfolding asked
  attributes =
      asked (calling attributes_call)
        (wrap queue (build_queue_only_request to_upper 0x0001 library name))
        (λ reply. wrap queue (parse_attributes_reply reply)) c env
