-- ===== src/Database/Setup/Safe.antt =====
-- parseServerAttributes reads nothing beyond what it was sent.
use jt400_go.Prelude.{ℕ, ◌≤◌, ◌≡◌, refl, inl, inr, ◌&&◌, ltb, leb, ◌==◌, length, arith, Bool-cases}
use jt400_go.Prelude.Int.{ℤ}
use jt400_go.Go.{Result, ok, ◌>>=◌, returns, Bytes}
use jt400_go.Go.Outcome.{returns->>=}
use jt400_go.Go.Fields.{slice_ok, byte_at_ok, uint16_ok}
use jt400_go.Database.Ccsid.{Registry}
use jt400_go.Database.Setup.{
  SetupError, ServerFacts, at_least_five, level_of, job_id_of, read_job, parse_server_attributes,
}
use jt400_go.Database.Setup.{true}

abbrev known : ℕ → ℕ → ℤ → Bytes → Result SetupError ServerFacts
known ccsid vrm level job =
    ok (record { server_ccsid = ccsid; vrm = vrm; functional_level = level; job_id = job })

module _ (registry : Registry) (trim_space : Bytes → Bytes) where
  level_of-returns : (level : Bytes) → returns (level_of registry trim_space level) ≡ true
  unfolding level_of
  level_of-returns level = elim (Bool-cases (leb 10 (length level))) [
    | inl long ↦
        rw (long, slice_ok {E = SetupError} level 6 (length level) (ground arith) (omega arith))
          refl
    | inr short ↦ rw short refl
  ]

  job_id_of-returns : (id : Bytes) → returns (job_id_of registry trim_space id) ≡ true
  unfolding job_id_of
  job_id_of-returns id = elim (Bool-cases (length id == 26)) [
    | inl whole ↦
        rw
          (
            whole,
            slice_ok {E = SetupError} id 20 26 (omega arith) (ground arith),
            slice_ok {E = SetupError} id 10 20 (omega arith) (ground arith),
            slice_ok {E = SetupError} id 0 10 (omega arith) (ground arith),
          )
          refl
    | inr other ↦ rw other refl
  ]

  read_job-returns :
      (a : Bytes) (ccsid : ℕ) (level : ℤ)
      → returns (read_job registry trim_space a ccsid level) ≡ true
  unfolding read_job
  read_job-returns a ccsid level = elim (Bool-cases (at_least_five level && leb 114 (length a))) [
    | inl there ↦
        rw (there, slice_ok {E = SetupError} a 88 114 (omega arith) (ground arith))
          (job_id_of-returns _)
    | inr absent ↦ rw absent refl
  ]

  -- What follows the fixed fields.
  text_part-returns :
      (a : Bytes) (ccsid vrm : ℕ) (text : Bytes)
      → returns (
          level_of registry trim_space text >>= λ level.
          read_job registry trim_space a ccsid level >>= λ job. known ccsid vrm level job)
        ≡ true
  text_part-returns a ccsid vrm text =
      returns->>= (level_of registry trim_space text) _ (level_of-returns text) (λ level e.
        returns->>= (read_job registry trim_space a ccsid level) _ (read_job-returns a ccsid level)
          (λ job e'. refl))

  -- parseServerAttributes comes back with the facts or an error on every byte slice: none of its reads
  -- leaves the slice or the decoded texts.
  pub parse_server_attributes-returns :
      (a : Bytes) → returns (parse_server_attributes registry trim_space a) ≡ true
  unfolding parse_server_attributes
  parse_server_attributes-returns a = elim (Bool-cases (ltb (length a) 60)) [
    | inl short ↦ rw short refl
    | inr long ↦
        let room : 60 ≤ length a = ground arith in
        rw
          (
            long,
            uint16_ok {E = SetupError} a 19 (omega arith),
            byte_at_ok {E = SetupError} a 51 (omega arith),
            byte_at_ok {E = SetupError} a 53 (omega arith),
            byte_at_ok {E = SetupError} a 55 (omega arith),
            slice_ok {E = SetupError} a 50 60 (omega arith) (omega arith),
          )
          (text_part-returns a _ _ _)
  ]
