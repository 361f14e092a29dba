-- ===== src/Rmtcmd/Client/Laws.antt =====
-- RunCommand in every environment, and CallProgram at a server that answers.
use jt400_go.Prelude.{
  ℕ, ◌≤◌, ◌≡◌, refl, ap, ◌∙◌, true, none, List, [], ◌∷◌, ◌++◌, arith, length, All,
}
use jt400_go.Go.{ok, wrap, returns, Bytes, uint16, be16_at, be16}
use jt400_go.Go.Fields.{uint16_ok}
use jt400_go.Go.Outcome.{returns->>=, wrap-returns}
use jt400_go.As400.Conn.{Connection, Env, next_correlation}
use jt400_go.As400.Conn.Exchange.{written}
use jt400_go.As400.Datastream.{Request, Reply, encode, read_reply}
use jt400_go.As400.Datastream.Laws.{read_reply-encode, IsFrame, as_reply}
use jt400_go.As400.Logon.Frames.{frame}
use jt400_go.As400.Service.Laws.{Works, asked-returns, asked-Works}
use jt400_go.Rmtcmd.Messages.{parse_messages}
use jt400_go.Rmtcmd.Wire.{
  MessageOption, Parameter, build_run_command_request, build_call_program_request,
  parse_call_program_output,
}
use jt400_go.Rmtcmd.Client.{
  ClientError, Client, wire, code_of, command_outcome, run_command, output_outcome, program_outcome,
  call_program, run_command_call, call_program_call,
}
use jt400_go.Rmtcmd.Wire.Sent.{
  Sent, outputs, sent_entries, IsSent, deliver, parse_call_program_output-sent,
}

code_of-returns : (r : Reply) → returns (code_of r) ≡ true
unfolding code_of
code_of-returns r = ground (arith, uint16_ok {E = ClientError} r.body 0)

command_outcome-returns : (r : Reply) → returns (command_outcome r) ≡ true
unfolding command_outcome
command_outcome-returns r = returns->>= _ _ (code_of-returns r) (λ rc e. refl)

build_run_command_request-returns :
    (command : List ℕ) (ds_level : ℕ) (opt : MessageOption)
    → returns (build_run_command_request command ds_level opt) ≡ true
unfolding build_run_command_request
build_run_command_request-returns command ds_level opt = ground arith

-- RunCommand ends with its messages and the return code, or an error, in every environment.
pub run_command-returns :
    (client : Client) (command : List ℕ) (opt : MessageOption) (c : Connection) (env : Env)
    → returns (run_command client command opt c env).2 ≡ true
unfolding run_command
run_command-returns client command opt c env =
    asked-returns run_command_call command_outcome c env command_outcome-returns
      (wrap wire (build_run_command_request command client.ds_level opt))
      (wrap-returns wire _ (build_run_command_request-returns command client.ds_level opt))

-- A reply of return code 0 whose outputs are read.
program_outcome_ok :
    (params : List Parameter) (r : Reply) (filled : List Parameter)
    → code_of r ≡ ok 0
    → parse_call_program_output r.body params ≡ (filled, ok tt)
    → program_outcome params r
      ≡ ok (record { messages = (parse_messages r.body).0; error = none }, filled)
unfolding program_outcome output_outcome
program_outcome_ok params r filled zeroed read = rw zeroed (rw read refl)

zero_code :
    (header_id server_id correlation template_len req_rep_id count : ℕ) (more : Bytes)
    → code_of (record {
      header_id = header_id;
      server_id = server_id;
      correlation = correlation;
      template_len = template_len;
      req_rep_id = req_rep_id;
      body = (0 ∷ 0 ∷ be16 count) ++ more;
    })
      ≡ ok 0
unfolding code_of uint16 be16_at
zero_code header_id server_id correlation template_len req_rep_id count more = ground arith

-- The frame of a program call's reply: return code 0, a count of messages, the outputs.
abbrev pub output_frame : ℕ → ℕ → ℕ → ℕ → ℕ → List Sent → Bytes → Request
output_frame header_id correlation template_len req_rep_id count outs more = record {
  server_id = 0xE008;
  header_id = header_id;
  correlation = correlation;
  template_len = template_len;
  req_rep_id = req_rep_id;
  body = (0 ∷ 0 ∷ be16 count) ++ (sent_entries outs ++ more);
}

module _ (to_upper : Bytes → Bytes) (client : Client) (library program : Bytes)
    (params : List Parameter) (opt : MessageOption) (c : Connection) (env : Env) where
  -- CallProgram, where nothing stops the exchange and the server answers with a frame of return code 0
  -- that holds an entry, plain or compressed, for each parameter that takes an output: it has written
  -- exactly the request for the call, under the next ID, and ends without an error, with the values of
  -- the entries in exactly those parameters, in order, and the messages of the frame.
  pub call_program_delivers :
      (req : Request) (header_id correlation template_len req_rep_id count : ℕ) (outs : List Sent)
      (more rest : Bytes)
      → build_call_program_request to_upper library program params client.ds_level opt ≡ ok req
      → Works env
      → outputs params ≤ length outs
      → All IsSent outs
      → IsFrame (output_frame header_id correlation template_len req_rep_id count outs more)
      → env.incoming
        ≡ encode (output_frame header_id correlation template_len req_rep_id count outs more)
          ++ rest
      → (written (call_program to_upper client library program params opt c env).1
          ≡ frame (next_correlation c.correlation) req ∷ [])
        × ((call_program to_upper client library program params opt c env).2
            ≡ ok (
              record {
                messages = (parse_messages ((0 ∷ 0 ∷ be16 count) ++ (sent_entries outs ++ more))).0;
                error = none;
              },
              deliver params outs,
            ))
  unfolding call_program
  call_program_delivers req header_id correlation template_len req_rep_id count outs more rest built
        works enough sent framed incoming =
      let answer = output_frame header_id correlation template_len req_rep_id count outs more in
      let (wrote, gave) =
        asked-Works call_program_call
          (wrap wire
            (build_call_program_request to_upper library program params client.ds_level opt))
          (program_outcome params) c env req (as_reply answer) rest (ap (wrap wire) built) works
          (ap read_reply incoming ∙ read_reply-encode answer rest framed) in
      (
        wrote,
        gave
            ∙ program_outcome_ok params (as_reply answer) (deliver params outs)
                (zero_code header_id 0xE008 correlation template_len req_rep_id count
                  (sent_entries outs ++ more))
                (parse_call_program_output-sent params outs (0 ∷ 0 ∷ be16 count) more refl enough
                  sent),
      )
