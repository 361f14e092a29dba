-- ===== src/Rmtcmd/Client/Ends.antt =====
-- How CallProgram ends, in every environment and whatever the server sends.
use jt400_go.Prelude.{
  ℕ, ◌≤◌, ◌<◌, ◌≡◌, refl, inl, inr, Bool-cases, true, false, none, some, List, ◌==◌, ltb, arith,
  length, Option,
}
use jt400_go.Go.{Result, ok, err, panic, stuck, ◌>>=◌, wrap, returns, Bytes, be16_at}
use jt400_go.Go.Fields.{uint16_ok}
use jt400_go.Go.Outcome.{returns->>=, wrap-returns}
use jt400_go.As400.Conn.{Connection, Env, ConnError, call}
use jt400_go.As400.Conn.Exchange.{answers, call-answers}
use jt400_go.As400.Datastream.{Request, Reply}
use jt400_go.As400.Service.{ask, asked, answer_of}
use jt400_go.Auth.Ebcdic.Laws.{encode_ebcdic_padded-returns}
use jt400_go.Rmtcmd.Messages.{parse_messages}
use jt400_go.Rmtcmd.Wire.{
  RmtError, MessageOption, Parameter, build_call_program_request, parse_call_program_output,
  program_name, library_name,
}
use jt400_go.Rmtcmd.Wire.Output.{KeepsInputs, parse_call_program_output_lem}
use jt400_go.Rmtcmd.Client.{
  ClientError, Client, Outcome, wire, reply_too_short, returned_code, code_of, output_outcome,
  program_outcome, call_program, call_program_call,
}

-- The outcomes that a reply allows, by its first two bytes, for a call with these parameters.
pub data Judged (params : List Parameter) (body : Bytes)
    : Result ClientError (Outcome × List Parameter) → Type 0 where
  short : length body < 2 → Judged params body (err reply_too_short)
  refused :
      2 ≤ length body
      → (be16_at body 0 == 0) ≡ false
      → Judged params body (
          ok (
            record {
              messages = (parse_messages body).0;
              error = some (returned_code (be16_at body 0));
            },
            params,
          ))
  filled :
      {params' : List Parameter}
      → 2 ≤ length body
      → be16_at body 0 ≡ 0
      → parse_call_program_output body params ≡ (params', ok tt)
      → KeepsInputs params params'
      → Judged params body
          (ok (record { messages = (parse_messages body).0; error = none }, params'))
  cut_off :
      {params' : List Parameter} (e : RmtError)
      → 2 ≤ length body
      → be16_at body 0 ≡ 0
      → parse_call_program_output body params ≡ (params', err e)
      → KeepsInputs params params'
      → Judged params body
          (ok (record { messages = (parse_messages body).0; error = some (wire e) }, params'))

-- How a call with these parameters ends, by its request and by what came of it on the connection.
pub data Ends (params : List Parameter) (c : Connection) (env : Env)
    : Result RmtError Request → Result ClientError (Outcome × List Parameter) → Type 0 where
  unbuilt : (e : RmtError) → Ends params c env (err e) (err (wire e))
  unanswered :
      (req : Request) (e : ConnError)
      → (call c env req).2 ≡ err e
      → Ends params c env (ok req) (err (call_program_call e))
  replied :
      {out : Result ClientError (Outcome × List Parameter)} (req : Request) (reply : Reply)
      → (call c env req).2 ≡ ok (some reply)
      → Judged params reply.body out
      → Ends params c env (ok req) out

module _ (params : List Parameter) (body : Bytes) (long : 2 ≤ length body)
    (zeroed : be16_at body 0 ≡ 0) where
  output_outcome-Judged :
      (t : List Parameter × Result RmtError (Unit {0}))
      → parse_call_program_output body params ≡ t
      → returns t.1 ≡ true
      → KeepsInputs params t.0
      → Judged params body (output_outcome (parse_messages body).0 t)
  unfolding output_outcome
  output_outcome-Judged (params', ok tt) e h k = filled long zeroed e k
  output_outcome-Judged (params', err x) e h k = cut_off x long zeroed e k
  output_outcome-Judged (params', panic) e h k = cc
  output_outcome-Judged (params', stuck) e h k = cc

program_outcome-Judged :
    (params : List Parameter) (r : Reply) → Judged params r.body (program_outcome params r)
unfolding program_outcome code_of
program_outcome-Judged params r = elim (Bool-cases (ltb (length r.body) 2)) [
  | inl low ↦ rw low (short (ground arith))
  | inr high ↦
      let long : 2 ≤ length r.body = ground arith in
      let code = uint16_ok {E = ClientError} r.body 0 long in
      elim (Bool-cases (be16_at r.body 0 == 0)) [
        | inr other ↦ rw (high, code, other) (refused long other)
        | inl zeroed ↦
            let (back, kept) = parse_call_program_output_lem r.body params in
            rw (high, code, zeroed)
              (output_outcome-Judged params r.body long (ground arith)
                (parse_call_program_output r.body params) refl back kept)
      ]
]

build_call_program_request-returns :
    (to_upper : Bytes → Bytes) (library program : Bytes) (params : List Parameter) (ds_level : ℕ)
    (opt : MessageOption)
    → returns (build_call_program_request to_upper library program params ds_level opt) ≡ true
unfolding build_call_program_request
build_call_program_request-returns to_upper library program params ds_level opt =
    returns->>= _ _
      (wrap-returns program_name _ (encode_ebcdic_padded-returns (to_upper program) 10))
      λ p e.
        returns->>= _ _
          (wrap-returns library_name _ (encode_ebcdic_padded-returns (to_upper library) 10))
          (λ l e'. refl)

module _ (params : List Parameter) (c : Connection) (env : Env) where
  ask-Ends :
      (req : Request) (r : Result ConnError (Option Reply))
      → (call c env req).2 ≡ r
      → answers r ≡ true
      → Ends params c env (ok req) (answer_of r call_program_call >>= program_outcome params)
  ask-Ends req (ok none) e h = cc
  ask-Ends req (ok (some reply)) e h = replied req reply e (program_outcome-Judged params reply)
  ask-Ends req (err x) e h = unanswered req x e
  ask-Ends req panic e h = cc
  ask-Ends req stuck e h = cc

  asked-Ends :
      (m : Result RmtError Request)
      → returns m ≡ true
      → Ends params c env m (asked call_program_call (wrap wire m) (program_outcome params) c env).2
  unfolding asked ask
  asked-Ends (ok req) h = ask-Ends req (call c env req).2 refl (call-answers c env req)
  asked-Ends (err e) h = unbuilt e
  asked-Ends panic h = cc
  asked-Ends stuck h = cc

-- CallProgram always comes back, with the error of its request, with the error of its exchange, or by
-- the reply that this exchange got. With fewer than two bytes the reply gives an error. Where its first
-- two bytes are not 0, they are the error, and no parameter has changed. Where they are 0, the error is
-- none or that of the outputs as far as they were read, and only outputs of output parameters of
-- positive length have changed. The messages are those of the reply.
pub call_program-Ends :
    (to_upper : Bytes → Bytes) (client : Client) (library program : Bytes) (params : List Parameter)
    (opt : MessageOption) (c : Connection) (env : Env)
    → Ends params c env
        (build_call_program_request to_upper library program params client.ds_level opt)
        (call_program to_upper client library program params opt c env).2
unfolding call_program
call_program-Ends to_upper client library program params opt c env =
    asked-Ends params c env
      (build_call_program_request to_upper library program params client.ds_level opt)
      (build_call_program_request-returns to_upper library program params client.ds_level opt)
