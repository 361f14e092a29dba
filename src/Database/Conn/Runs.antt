-- ===== src/Database/Conn/Runs.antt =====
-- A commit against a server that answers every request, and the theorems on connections there.
use jt400_go.Prelude.{
  ℕ, ◌+◌, ◌≤◌, ◌≡◌, refl, Bool, true, false, ◌||◌, none, [], ◌∷◌, ◌++◌, arith, leb, ◌==◌,
  if◌then◌else◌, replicate,
}
use jt400_go.Prelude.Int.{pos}
use jt400_go.Go.{ok, Bytes, slice, byte_at, be16_at, be32_at, uint16, uint32}
use jt400_go.As400.Conn.{Env, call, exchange, exchange_deadline, under_deadline, watched, transfer}
use jt400_go.As400.Datastream.{read_reply, read_full}
use jt400_go.As400.Params.{decode_params, decode_params_loop}
use jt400_go.Database.Wire.{parse_reply, apply_params, failed}
use jt400_go.Database.Conn.{
  Session, op_commit, fn_commit, end_request, autocommit_request, level_ok, usable, db_call, parsed,
  answered, check_reply, request_ok, set_auto_commit, commit_or_rollback, restored,
  restore_autocommit, ended_with, end_transaction, commit, begin_tx, find_free, claim, alloc_id,
}
use jt400_go.Database.Conn.Calls.{ended, SameTransaction, db_call_usable}
use jt400_go.Database.Conn.Transactions.{Settled, end_transaction-Settled, commit_success}
use jt400_go.Database.Conn.Handles.{alloc_id_lowest}

abbrev ascii : ℕ → Bytes → Bytes
ascii ccsid b = b

-- A reply with the error class 0 and no entries.
abbrev answer : Bytes
answer =
    (0 ∷ 0 ∷ 0 ∷ 40 ∷ 0 ∷ 0 ∷ 0xE0 ∷ 4 ∷ 0 ∷ 0 ∷ 0 ∷ 0 ∷ 0 ∷ 0 ∷ 0 ∷ 1 ∷ 0 ∷ 20 ∷ 0x28 ∷ 0 ∷ [])
    ++ replicate 20 0

abbrev env : ℕ → Env
env n = record {
  ctx_before = none;
  ctx_after = none;
  ctx_deadline = none;
  now = 0;
  now_after = 0;
  set_deadline_works = true;
  canceled_at = none;
  write_works = true;
  incoming = answer;
}

abbrev session : Bool → Bool → Session
session in_tx broken = record {
  link = record { correlation = 0; io_timeout = 0 };
  ids = λ i. i == 1;
  in_tx = in_tx;
  broken = broken;
  closed = false;
  env = env;
  step = 0;
  log = [];
}

commit_run : (commit ascii (session true false)).1 ≡ ok tt
unfolding commit end_transaction ended_with commit_or_rollback restore_autocommit restored
    set_auto_commit request_ok check_reply db_call usable answered parsed parse_reply apply_params
    failed call exchange exchange_deadline under_deadline watched transfer read_reply read_full
    decode_params decode_params_loop byte_at uint16 uint32 be16_at be32_at slice
commit_run = refl

commit_success_example :
    ((commit ascii (session true false)).0.log
      ≡ [] ++ (end_request fn_commit ∷ autocommit_request true (pos 0) ∷ []))
    × ((commit ascii (session true false)).0.in_tx ≡ false)
    × ((commit ascii (session true false)).0.broken ≡ false)
    × ((commit ascii (session true false)).0.closed ≡ false)
commit_success_example = commit_success ascii (session true false) tt commit_run

end_transaction-Settled_example :
    Settled ascii (end_transaction ascii (session true true) fn_commit op_commit)
end_transaction-Settled_example =
    end_transaction-Settled ascii (session true true) fn_commit op_commit refl

begin_run : (begin_tx ascii (session false false) (pos 2)).1 ≡ ok tt
unfolding begin_tx level_ok set_auto_commit request_ok check_reply db_call usable answered parsed
    parse_reply apply_params failed call exchange exchange_deadline under_deadline watched transfer
    read_reply read_full decode_params decode_params_loop byte_at uint16 uint32 be16_at be32_at
    slice
begin_run = refl

db_call_usable_example :
    (ended (db_call ascii (session false false) (end_request 0x1807)) ≡ true)
    × ((db_call ascii (session false false) (end_request 0x1807)).0.log
        ≡ [] ++ (end_request 0x1807 ∷ []))
    × ((db_call ascii (session false false) (end_request 0x1807)).0.step ≡ 0 + 1)
    × SameTransaction
        (session false false)
        (db_call ascii (session false false) (end_request 0x1807)).0
db_call_usable_example = db_call_usable ascii (session false false) (end_request 0x1807) refl refl

alloc_run : (alloc_id (session false false)).1 ≡ ok 2
unfolding alloc_id find_free claim
alloc_run = refl

alloc_id_lowest_example :
    ((session false false).ids 2 ≡ false)
    × (1 ≤ 2)
    × (2 ≤ 9999)
    × ((leb 2 1 || (session false false).ids 1) ≡ true)
    × ((alloc_id (session false false)).0.ids 1
        ≡ (if 1 == 2 then true else (session false false).ids 1))
alloc_id_lowest_example = alloc_id_lowest (session false false) 2 1 alloc_run (omega arith)
