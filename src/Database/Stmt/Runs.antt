-- ===== src/Database/Stmt/Runs.antt =====
-- Statements of a concrete session, and the theorems on them there.
use jt400_go.Prelude.{ℕ, ◌≡◌, refl, true, false, none, some, [], ◌==◌, arith}
use jt400_go.Go.{ok, err, returns, slice, byte_at, be16_at, be32_at, uint16, uint32}
use jt400_go.Go.Runes.{rune_bytes, runes_after, first_rune, text_of}
use jt400_go.Go.Strings.{codes, trim_left, has_prefix, bytes_eq}
use jt400_go.Go.Numbers.{format_nat, digits_loop}
use jt400_go.As400.Conn.{call, exchange, exchange_deadline, under_deadline, watched, transfer, send}
use jt400_go.As400.Datastream.{read_reply, read_full}
use jt400_go.As400.Params.{decode_params, decode_params_loop}
use jt400_go.Database.Value.Sample.{platform}
use jt400_go.Database.Stmt.Prepare.{
  prepare, prepare_with, or_free, rpb_request, describe, prepare_request, or_release, release,
  released, close_rows, close_rows_of, delete_descriptor, delete_rpb, call_delete, stmt_close,
}
use jt400_go.Database.Stmt.Keyword.{
  statement_type, first_keyword, skip_loop, skip_comment, after_line, after_comment, first_word,
  skip_loop-Ends, Ends,
}
use jt400_go.Database.Stmt.Cursor.{advance, read_columns, read_column}
use jt400_go.Database.Stmt.{
  bad_query, add_name, object_name, if_usable, go_on, stmt_usable, joined_with,
}
use jt400_go.Database.Data.{row, indicator}
use jt400_go.Database.Conn.{
  usable, alloc_id, find_free, claim, db_send, db_call, answered, parsed, free_id, set_id,
}
use jt400_go.Database.Stmt.Failures.{prepare_failed-ids}
use jt400_go.Database.Ccsid.{no_converter, encode_string, lookup_ccsid}
use jt400_go.Database.Conn.Sends.{AtMost}
use jt400_go.Database.Stmt.Fetching.{fetch_request, advance_ends}
use jt400_go.Auth.Ebcdic.{encode_ebcdic, lookup, ascii_to_ebcdic, run}
use jt400_go.Database.Wire.{
  add_text, add, parse_reply, apply_params, failed, add_short, add_byte, add_int, affected_rows,
}
use jt400_go.Database.Value.Read.{decode_value, read_integer, read_int}
use jt400_go.Database.Stmt.Delivery.{block_rows, Reads, read_on, Reads-block_rows}
use jt400_go.Database.Stmt.Direct.{conn_exec, stmt_exec, convert_args, closed_after}
use jt400_go.Database.Stmt.Balance.{conn_exec-ids}
use jt400_go.Database.Stmt.Reached.{Reached-ids}
use jt400_go.Database.Stmt.Reached.Reached.{start, prepared}
use jt400_go.Database.Stmt.Run.{
  exec, exec_on, bind, send_descriptor, execute_request, add_execute_params, closed_with,
  has_columns,
}
use jt400_go.Database.Stmt.Sample.{
  settings, session, cursor, one_row, world, two_rows, columns, reading, rows_sent, converting,
  fresh, one_held, two_held,
}
use jt400_go.Database.Data.{slice_between}

-- A comment, a parenthesis and a blank stand before the keyword.
keyword_run : statement_type settings (codes "-- x\n ( SELECT 1") ≡ 2
unfolding statement_type first_keyword skip_loop skip_comment after_line after_comment first_word
    trim_left has_prefix bytes_eq runes_after first_rune text_of rune_bytes
keyword_run = refl

comment_run : statement_type settings (codes "/* CALL */CALL P") ≡ 3
unfolding statement_type first_keyword skip_loop skip_comment after_line after_comment first_word
    trim_left has_prefix bytes_eq runes_after first_rune text_of rune_bytes
comment_run = refl

-- The handle is taken, the query cannot be coded, and the statement is released.
prepare_run :
    (prepare platform settings (world cursor) (codes "X")).1 ≡ err (bad_query (no_converter 13488))
unfolding prepare prepare_with usable alloc_id find_free claim or_free rpb_request add_name
    object_name format_nat digits_loop encode_ebcdic lookup ascii_to_ebcdic run add_text add db_send
    send exchange exchange_deadline under_deadline watched transfer describe prepare_request
    encode_string lookup_ccsid or_release release released if_usable close_rows close_rows_of go_on
    delete_descriptor delete_rpb call_delete db_call answered parsed parse_reply apply_params failed
    call read_reply read_full decode_params decode_params_loop byte_at uint16 uint32 be16_at be32_at
    slice free_id
prepare_run = refl

prepare_failed-ids_example :
    (prepare platform settings (world cursor) (codes "X")).0.session.ids 2 ≡ false
prepare_failed-ids_example =
    prepare_failed-ids platform settings (world cursor) (codes "X") (bad_query (no_converter 13488))
      2 prepare_run

row_run : (advance platform settings 2 (world (record cursor { block = some one_row })) 0).1 ≡ ok tt
unfolding advance
row_run = refl

advance_ends_example :
    (returns (advance platform settings 2 (world cursor) 0).1 ≡ true)
    × AtMost session
        (fetch_request platform settings (world cursor) 0)
        (advance platform settings 2 (world cursor) 0).0.session
advance_ends_example = advance_ends platform settings 0 (world cursor) 0

skip_loop-Ends_example :
    Ends settings (skip_loop settings 9 (codes "--x\nX")) (skip_loop settings 6 (codes "--x\nX"))
skip_loop-Ends_example = skip_loop-Ends settings 9 6 (codes "--x\nX") (omega arith) (omega arith)

rows_run : block_rows platform settings two_rows columns 2 0 ≡ ok rows_sent
unfolding row slice_between slice read_columns read_column indicator decode_value read_integer
    read_int be16_at
rows_run = refl

Reads-block_rows_example :
    Reads platform settings 0 1 reading rows_sent (read_on platform settings reading 0 2)
    × ((read_on platform settings reading 0 2).session ≡ session)
Reads-block_rows_example =
    Reads-block_rows platform settings 2 reading 0 two_rows columns rows_sent (refl, refl, refl)
      refl (omega arith) rows_run

exec_run :
    returns (conn_exec platform converting (λ (a : ℕ). some none) (world cursor) (codes "X") []).1
    ≡ true
unfolding prepare prepare_with usable alloc_id find_free claim or_free rpb_request add_name
    object_name format_nat digits_loop encode_ebcdic lookup ascii_to_ebcdic run add_text add db_send
    send exchange exchange_deadline under_deadline watched transfer describe prepare_request
    encode_string lookup_ccsid or_release release released if_usable close_rows close_rows_of go_on
    delete_descriptor delete_rpb call_delete db_call answered parsed parse_reply apply_params failed
    call read_reply read_full decode_params decode_params_loop byte_at uint16 uint32 be16_at be32_at
    slice free_id conn_exec stmt_exec exec exec_on convert_args stmt_usable bind send_descriptor
    execute_request add_execute_params add_short add_byte add_int affected_rows closed_after
    closed_with stmt_close joined_with has_columns
exec_run = refl

conn_exec-ids_example :
    (conn_exec platform converting
        (λ (a : ℕ). some none)
        (world cursor)
        (codes "X")
        []).0.session.ids
      2
    ≡ (world cursor).session.ids 2
conn_exec-ids_example =
    conn_exec-ids platform converting (λ (a : ℕ). some none) (world cursor) (codes "X") [] 2
      exec_run

first_run : (prepare platform converting fresh (codes "X")).1 ≡ ok 0
unfolding prepare prepare_with usable alloc_id find_free claim or_free rpb_request add_name
    object_name format_nat digits_loop encode_ebcdic lookup ascii_to_ebcdic run add_text add db_send
    send exchange exchange_deadline under_deadline watched transfer describe prepare_request
    encode_string lookup_ccsid or_release release released if_usable close_rows close_rows_of go_on
    delete_descriptor delete_rpb call_delete db_call answered parsed parse_reply apply_params failed
    call read_reply read_full decode_params decode_params_loop byte_at uint16 uint32 be16_at be32_at
    slice free_id conn_exec stmt_exec exec exec_on convert_args stmt_usable bind send_descriptor
    execute_request add_execute_params add_short add_byte add_int affected_rows closed_after
    closed_with stmt_close joined_with has_columns
first_run = refl

second_run : (prepare platform converting one_held (codes "X")).1 ≡ ok 1
unfolding prepare prepare_with usable alloc_id find_free claim or_free rpb_request add_name
    object_name format_nat digits_loop encode_ebcdic lookup ascii_to_ebcdic run add_text add db_send
    send exchange exchange_deadline under_deadline watched transfer describe prepare_request
    encode_string lookup_ccsid or_release release released if_usable close_rows close_rows_of go_on
    delete_descriptor delete_rpb call_delete db_call answered parsed parse_reply apply_params failed
    call read_reply read_full decode_params decode_params_loop byte_at uint16 uint32 be16_at be32_at
    slice free_id conn_exec stmt_exec exec exec_on convert_args stmt_usable bind send_descriptor
    execute_request add_execute_params add_short add_byte add_int affected_rows closed_after
    closed_with stmt_close joined_with has_columns
second_run = refl

live_run : ((two_held.stmts 0).closed ≡ false) × ((two_held.stmts 1).closed ≡ false)
unfolding prepare prepare_with usable alloc_id find_free claim or_free rpb_request add_name
    object_name format_nat digits_loop encode_ebcdic lookup ascii_to_ebcdic run add_text add db_send
    send exchange exchange_deadline under_deadline watched transfer describe prepare_request
    encode_string lookup_ccsid or_release release released if_usable close_rows close_rows_of go_on
    delete_descriptor delete_rpb call_delete db_call answered parsed parse_reply apply_params failed
    call read_reply read_full decode_params decode_params_loop byte_at uint16 uint32 be16_at be32_at
    slice free_id conn_exec stmt_exec exec exec_on convert_args stmt_usable bind send_descriptor
    execute_request add_execute_params add_short add_byte add_int affected_rows closed_after
    closed_with stmt_close joined_with has_columns
live_run = (refl, refl)

Reached-ids_example :
    (two_held.session.ids (two_held.stmts 0).id ≡ true)
    × (((two_held.stmts 0).id == (two_held.stmts 1).id) ≡ false)
Reached-ids_example =
    Reached-ids platform converting (λ (a : ℕ). some none) two_held
      (set_id (set_id (λ i. false) 0 true) 1 true) 0 1
      (prepared (codes "X") 1 (prepared (codes "X") 0 (start (λ k. refl)) first_run) second_run)
      refl refl live_run.0 live_run.1
