-- ===== src/Rmtcmd/Wire/Output.antt =====
-- parseCallProgramOutput returns on every reply and keeps what is no output.
use jt400_go.Prelude.{
  ℕ, ◌+◌, ◌-◌, ◌≡◌, refl, ◌⊎◌, inl, inr, true, not, ◌&&◌, ◌||◌, List, [], ◌∷◌, arith, Bool-cases,
  take, drop,
}
use jt400_go.Go.{returns, Bytes, be32_at}
use jt400_go.Go.Fields.{slice_ok, uint16_ok, uint32_ok}
use jt400_go.Go.Outcome.{returns-cases}
use jt400_go.Rmtcmd.Rle.Laws.{decompress_rle-returns}
use jt400_go.Rmtcmd.Wire.{
  RmtError, Parameter, is_output, is_positive, read_output, fill_outputs, parse_call_program_output,
}

read_output-returns : (body : Bytes) (idx : ℕ) → returns (read_output body idx) ≡ true
unfolding read_output
read_output-returns body idx = ground (
  arith,
  uint32_ok {E = RmtError} body idx,
  uint32_ok {E = RmtError} body (idx + 6),
  uint16_ok {E = RmtError} body (idx + 10),
  slice_ok {E = RmtError} body (idx + 12) (idx + be32_at body idx),
  decompress_rle-returns (take (idx + be32_at body idx - (idx + 12)) (drop (idx + 12) body))
      (be32_at body (idx + 6)),
)

-- A parameter that is no output, or has no room, keeps all its fields; any other keeps all but its
-- output.
abbrev pub KeepsInputs : List Parameter → List Parameter → Type 0
KeepsInputs [] [] = Unit {0}
KeepsInputs [] (q ∷ qs) = ⊥
KeepsInputs (p ∷ ps) [] = ⊥
KeepsInputs (p ∷ ps) (q ∷ qs) =
    ((is_output p.usage && is_positive p.max_length ≡ true) ⊎ (q ≡ p))
    × (q ≡ record p { output_data = q.output_data })
    × KeepsInputs ps qs

pub KeepsInputs-refl : (ps : List Parameter) → KeepsInputs ps ps
KeepsInputs-refl [] = tt
KeepsInputs-refl (p ∷ ps) = (inr refl, refl, KeepsInputs-refl ps)

fill_outputs_lem :
    (body : Bytes) (idx : ℕ) (ps : List Parameter)
    → (returns (fill_outputs body idx ps).1 ≡ true) × KeepsInputs ps (fill_outputs body idx ps).0
unfolding fill_outputs
fill_outputs_lem body idx [] = (refl, tt)
fill_outputs_lem body idx (p ∷ ps) =
    elim (Bool-cases (not (is_output p.usage) || not (is_positive p.max_length))) [
      | inl skip ↦
          rw skip
            ((fill_outputs_lem body idx ps).0, (inr refl, refl, (fill_outputs_lem body idx ps).1))
      | inr fill ↦
          rw fill (elim (returns-cases (read_output body idx) (read_output-returns body idx)) [
            | inl ((out, next), e) ↦ rw e (
              (fill_outputs_lem body next ps).0,
              (inl (ground arith), refl, (fill_outputs_lem body next ps).1),
            )
            | inr (x, e) ↦ rw e (refl, KeepsInputs-refl (p ∷ ps))
          ])
    ]

-- On every reply body and every parameter list parseCallProgramOutput returns. The list keeps its
-- length and order: a parameter that is not an output, or has no positive length, is not touched,
-- and any other changes in its output alone.
pub parse_call_program_output_lem :
    (body : Bytes) (ps : List Parameter)
    → (returns (parse_call_program_output body ps).1 ≡ true)
      × KeepsInputs ps (parse_call_program_output body ps).0
unfolding parse_call_program_output
parse_call_program_output_lem body ps = fill_outputs_lem body 4 ps
