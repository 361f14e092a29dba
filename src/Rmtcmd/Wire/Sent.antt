-- ===== src/Rmtcmd/Wire/Sent.antt =====
-- parseCallProgramOutput reads back what a server wrote: plain entries and compressed ones.
use jt400_go.Prelude.{
  ℕ, ◌+◌, ◌^◌, ◌≤◌, ◌<◌, ◌≡◌, refl, sym, ◌≢◌, Bool, true, false, not, ◌||◌, List, [], ◌∷◌, ◌++◌,
  append_assoc, arith, ltb, ◌==◌, if◌then◌else◌, length, length-append, All,
}
use jt400_go.Go.{ok, wrap, Bytes, slice, uint16, uint32, be16, be32}
use jt400_go.Go.Fields.{slice-append, uint16-append, uint32-append}
use jt400_go.Rmtcmd.Rle.{decompress_rle}
use jt400_go.Rmtcmd.Rle.Laws.{Record, IsRecord, compress, expand, decompress_rle-compress}
use jt400_go.Rmtcmd.Wire.{
  RmtError, bad_rle, Parameter, is_output, is_positive, read_output, fill_outputs,
  parse_call_program_output,
}

-- What a server sends for one parameter: plain data, or compressed records.
pub data Sent : Type 0 where
  plain : ℕ → Bytes → Sent
  packed : List Record → Sent

abbrev sent_bytes : Sent → Bytes
sent_bytes (plain usage raw) = raw
sent_bytes (packed rs) = compress rs

abbrev sent_usage : Sent → ℕ
sent_usage (plain usage raw) = usage
sent_usage (packed rs) = 23

abbrev pub sent_value : Sent → Bytes
sent_value (plain usage raw) = raw
sent_value (packed rs) = expand rs

-- The usage of plain data is a 16-bit code other than the two compressed ones.
abbrev pub IsSent : Sent → Type 0
IsSent (plain usage raw) =
    (usage < 2 ^ 16) × (usage ≢ 22) × (usage ≢ 23) × (12 + length raw < 2 ^ 32)
IsSent (packed rs) =
    All IsRecord rs × (12 + length (compress rs) < 2 ^ 32) × (length (expand rs) < 2 ^ 32)

abbrev pub sent_entry : Sent → Bytes
sent_entry s =
    be32 (12 + length (sent_bytes s))
    ++ (be16 0x1103 ++ (be32 (length (sent_value s)) ++ (be16 (sent_usage s) ++ sent_bytes s)))

abbrev pub sent_entries : List Sent → Bytes
sent_entries [] = []
sent_entries (s ∷ ss) = sent_entry s ++ sent_entries ss

module _ (pre rest : Bytes) (s : Sent) (idx : ℕ) (at_pre : idx ≡ length pre) (sent : IsSent s) where
  abbrev body : Bytes
  body = pre ++ (sent_entry s ++ rest)

  sent_fits :
      (12 + length (sent_bytes s) < 2 ^ 32)
      × (length (sent_value s) < 2 ^ 32)
      × (sent_usage s < 2 ^ 16)
  sent_fits = fits s sent
    where
      fits :
          (s : Sent)
          → IsSent s
          → (12 + length (sent_bytes s) < 2 ^ 32)
            × (length (sent_value s) < 2 ^ 32)
            × (sent_usage s < 2 ^ 16)
      fits (plain usage raw) h = omega arith
      fits (packed rs) h = omega arith

  entry_length : uint32 {E = RmtError} body idx ≡ ok (12 + length (sent_bytes s))
  entry_length = uint32-append pre _ _ idx at_pre sent_fits.0

  declared : uint32 {E = RmtError} body (idx + 6) ≡ ok (length (sent_value s))
  declared =
      let front = be32 (12 + length (sent_bytes s)) ++ be16 0x1103 in
      let tail = be16 (sent_usage s) ++ (sent_bytes s ++ rest) in
      rw (← append_assoc pre front (be32 (length (sent_value s)) ++ tail)) (
        uint32-append (pre ++ front) tail (length (sent_value s)) (idx + 6)
          (omega (arith, length-append pre front)) sent_fits.1)

  entry_usage : uint16 {E = RmtError} body (idx + 10) ≡ ok (sent_usage s)
  entry_usage =
      let front =
        be32 (12 + length (sent_bytes s)) ++ (be16 0x1103 ++ be32 (length (sent_value s))) in
      let tail = sent_bytes s ++ rest in
      rw (← append_assoc pre front (be16 (sent_usage s) ++ tail)) (
        uint16-append (pre ++ front) tail (sent_usage s) (idx + 10)
          (omega (arith, length-append pre front)) sent_fits.2)

  entry_bytes :
      slice {E = RmtError} body (idx + 12) (idx + (12 + length (sent_bytes s))) ≡ ok (sent_bytes s)
  entry_bytes =
      let front =
        be32 (12 + length (sent_bytes s))
        ++ (be16 0x1103 ++ (be32 (length (sent_value s)) ++ be16 (sent_usage s))) in
      rw (← append_assoc pre front (sent_bytes s ++ rest)) (
        slice-append (pre ++ front) (sent_bytes s) rest (idx + 12) _
          (omega (arith, length-append pre front)) (omega arith))

  length_body : length body ≡ idx + (12 + length (sent_bytes s)) + length rest
  length_body =
      omega (arith, length-append pre (sent_entry s ++ rest), length-append (sent_bytes s) rest)

decoded_value :
    (s : Sent)
    → IsSent s
    → (if sent_usage s == 22 || sent_usage s == 23
        then wrap bad_rle (decompress_rle (sent_bytes s) (length (sent_value s)))
        else ok (sent_bytes s))
      ≡ ok (sent_value s)
decoded_value (plain usage raw) h = ground arith
decoded_value (packed rs) h = ground (arith, decompress_rle-compress rs (length (expand rs)) h.0)

-- One entry, whatever stands before and behind it.
read_output-sent :
    (pre rest : Bytes) (s : Sent) (idx : ℕ)
    → idx ≡ length pre
    → IsSent s
    → read_output (pre ++ (sent_entry s ++ rest)) idx
      ≡ ok (sent_value s, idx + (12 + length (sent_bytes s)))
unfolding read_output
read_output-sent pre rest s idx at_pre sent =
    let fits : ltb (length (pre ++ (sent_entry s ++ rest))) (idx + 12) ≡ false =
      ground (arith, length_body pre rest s idx at_pre sent) in
    let inside : (ltb (12 + length (sent_bytes s)) 12
          || ltb (length (pre ++ (sent_entry s ++ rest))) (idx + (12 + length (sent_bytes s))))
        ≡ false =
      ground (arith, length_body pre rest s idx at_pre sent) in
    rw
      (
        fits,
        entry_length pre rest s idx at_pre sent,
        declared pre rest s idx at_pre sent,
        entry_usage pre rest s idx at_pre sent,
      )
      (rw (inside, entry_bytes pre rest s idx at_pre sent) (rw (decoded_value s sent)))

-- The parameters with the values of the entries, in order, in those that take an output.
abbrev pub deliver : List Parameter → List Sent → List Parameter
deliver [] ss = []
deliver (p ∷ ps) ss =
    if not (is_output p.usage) || not (is_positive p.max_length)
    then p ∷ deliver ps ss
    else elim ss [
      | [] ↦ p ∷ ps
      | s ∷ more ↦ record p { output_data = sent_value s } ∷ deliver ps more
    ]

-- How many parameters take an output.
abbrev pub outputs : List Parameter → ℕ
outputs [] = 0
outputs (p ∷ ps) =
    (if not (is_output p.usage) || not (is_positive p.max_length) then 0 else 1) + outputs ps

abbrev skips : Parameter → Bool
skips p = not (is_output p.usage) || not (is_positive p.max_length)

fill_outputs_skip :
    (body : Bytes) (idx : ℕ) (p : Parameter) (ps : List Parameter)
    → skips p ≡ true
    → fill_outputs body idx (p ∷ ps)
      ≡ (p ∷ (fill_outputs body idx ps).0, (fill_outputs body idx ps).1)
unfolding fill_outputs
fill_outputs_skip body idx p ps h = rw h

fill_outputs_fill :
    (body : Bytes) (idx next : ℕ) (out : Bytes) (p : Parameter) (ps : List Parameter)
    → skips p ≡ false
    → read_output body idx ≡ ok (out, next)
    → fill_outputs body idx (p ∷ ps) ≡ (
      record p { output_data = out } ∷ (fill_outputs body next ps).0,
      (fill_outputs body next ps).1,
    )
unfolding fill_outputs
fill_outputs_fill body idx next out p ps h e = rw h (rw e)

fill_outputs-sent :
    (ps : List Parameter) (ss : List Sent) (pre rest : Bytes) (idx : ℕ)
    → idx ≡ length pre
    → outputs ps ≤ length ss
    → All IsSent ss
    → fill_outputs (pre ++ (sent_entries ss ++ rest)) idx ps ≡ (deliver ps ss, ok tt)
fill_outputs-sent [] ss pre rest idx e h sent = unfold fill_outputs in refl
fill_outputs-sent (p ∷ ps) [] pre rest idx e h sent =
    ground (arith, fill_outputs_skip (pre ++ rest) idx p ps, fill_outputs-sent ps [] pre rest idx e)
fill_outputs-sent (p ∷ ps) (s ∷ ss) pre rest idx e h sent =
    let body = pre ++ ((sent_entry s ++ sent_entries ss) ++ rest) in
    let entry = read_output-sent pre (sent_entries ss ++ rest) s idx e sent.0 in
    ground (
      arith,
      fill_outputs_skip body idx p ps,
      fill_outputs-sent ps (s ∷ ss) pre rest idx e,
      fill_outputs_fill body idx (idx + (12 + length (sent_bytes s))) (sent_value s) p ps,
      append_assoc (sent_entry s) (sent_entries ss) rest,
      entry,
      append_assoc pre (sent_entry s) (sent_entries ss ++ rest),
      fill_outputs-sent ps ss (pre ++ sent_entry s) rest (idx + (12 + length (sent_bytes s)))
          (omega (arith, length-append pre (sent_entry s))),
    )

-- A reply that holds an entry for each parameter that takes an output, behind its four bytes of
-- header: parseCallProgramOutput succeeds and stores the values of the entries, decompressed where
-- they are compressed, in exactly those parameters and in order.
pub parse_call_program_output-sent :
    (ps : List Parameter) (ss : List Sent) (header rest : Bytes)
    → length header ≡ 4
    → outputs ps ≤ length ss
    → All IsSent ss
    → parse_call_program_output (header ++ (sent_entries ss ++ rest)) ps ≡ (deliver ps ss, ok tt)
unfolding parse_call_program_output
parse_call_program_output-sent ps ss header rest four h sent =
    fill_outputs-sent ps ss header rest 4 (sym four) h sent
