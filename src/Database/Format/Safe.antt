-- ===== src/Database/Format/Safe.antt =====
-- The descriptions of any reply: both parsers return.
use jt400_go.Prelude.{
  ℕ, zero, suc, ◌+◌, ◌-◌, ◌*◌, ◌≤◌, ◌<◌, ◌≡◌, refl, true, [], arith, length, take, drop,
  length-take, length-drop,
}
use jt400_go.Go.{ok, returns, Bytes, be16_at, be32_at}
use jt400_go.Go.Fields.{slice_ok, uint16_ok, uint32_ok}
use jt400_go.Go.Outcome.{returns->>=}
use jt400_go.Database.Format.{
  FormatError, Field, read_attributes, read_field, read_fields, parse_data_format, find_name,
  read_super_field, read_super_fields, parse_super_extended_format,
}

read_attributes_ok : (b : Bytes) → 14 ≤ length b → (f : Field) × (read_attributes b ≡ ok f)
unfolding read_attributes
read_attributes_ok b h = (
  record {
    sql_type = be16_at b 2;
    size = be32_at b 4;
    scale = be16_at b 8;
    precision = be16_at b 10;
    ccsid = be16_at b 12;
    name = [];
  },
  ground (
    arith,
    uint16_ok {E = FormatError} b 2,
    uint32_ok {E = FormatError} b 4,
    uint16_ok {E = FormatError} b 8,
    uint16_ok {E = FormatError} b 10,
    uint16_ok {E = FormatError} b 12,
  ),
)

module _ (decode_text : ℕ → Bytes → Bytes) where
  read_field-returns : (b : Bytes) → 64 ≤ length b → returns (read_field decode_text b) ≡ true
  unfolding read_field
  read_field-returns b h =
      let (f, e) = read_attributes_ok b (omega arith) in
      rw e (
        ground (
          arith,
          uint16_ok {E = FormatError} b 30,
          uint16_ok {E = FormatError} b 32,
          slice_ok {E = FormatError} b 34 (34 + be16_at b 30),
        ))

  read_fields-returns :
      (n i : ℕ) (d : Bytes)
      → 16 + (i + n) * 64 ≤ length d
      → returns (read_fields decode_text n i d) ≡ true
  unfolding read_fields
  read_fields-returns zero i d h = refl
  read_fields-returns (suc n) i d h =
      rw (slice_ok {E = FormatError} d (16 + i * 64) (length d) (omega arith) (omega arith)) (
        returns->>= _ _
          (read_field-returns _ (
            omega (
              arith,
              length-take (length d - (16 + i * 64)) (drop (16 + i * 64) d),
              length-drop (16 + i * 64) d,
            )))
          λ f e. returns->>= _ _ (read_fields-returns n (i + 1) d (omega arith)) λ fs e'. refl)

  find_name-returns :
      (fuel : ℕ) (d : Bytes) (base var_length position : ℕ)
      → position ≤ length d
      → length d < position + fuel
      → returns (find_name decode_text fuel d base var_length position) ≡ true
  unfolding find_name
  find_name-returns zero d base var_length position h k = absurd (omega arith)
  find_name-returns (suc fuel) d base var_length position h k = ground (
    arith,
    uint32_ok {E = FormatError} d (base + position),
    uint16_ok {E = FormatError} d (base + position + 4),
    uint16_ok {E = FormatError} d (base + position + 6),
    slice_ok {E = FormatError} d (base + position + 8)
        (base + position + be32_at d (base + position)),
    find_name-returns fuel d base var_length (position + be32_at d (base + position)),
  )

  read_super_field-returns :
      (d : Bytes) (i : ℕ)
      → 16 + (i + 1) * 48 ≤ length d
      → returns (read_super_field decode_text d i) ≡ true
  unfolding read_super_field
  read_super_field-returns d i h =
      let b = take (16 + i * 48 + 48 - (16 + i * 48)) (drop (16 + i * 48) d) in
      let long : 48 ≤ length b = omega (
        arith,
        length-take (16 + i * 48 + 48 - (16 + i * 48)) (drop (16 + i * 48) d),
        length-drop (16 + i * 48) d,
      ) in
      let (f, e) = read_attributes_ok b (omega arith) in
      rw (slice_ok {E = FormatError} d (16 + i * 48) (16 + i * 48 + 48) (omega arith) (omega arith))
        (rw (e, uint32_ok {E = FormatError} b 32 (omega arith))
          (rw (uint32_ok {E = FormatError} b 36 (omega arith)) (
            returns->>= _ _
              (find_name-returns (suc (length d)) d (16 + i * 48 + be32_at b 32) (be32_at b 36) 0
                (omega arith) (omega arith))
              λ name e'. refl)))

  read_super_fields-returns :
      (n i : ℕ) (d : Bytes)
      → 16 + (i + n) * 48 ≤ length d
      → returns (read_super_fields decode_text n i d) ≡ true
  unfolding read_super_fields
  read_super_fields-returns zero i d h = refl
  read_super_fields-returns (suc n) i d h =
      returns->>= _ _ (read_super_field-returns d i (omega arith))
        λ f e. returns->>= _ _ (read_super_fields-returns n (i + 1) d (omega arith)) λ fs e'. refl

  -- On every byte slice both format parsers return: a count or length that the slice cannot hold is
  -- an error or ends the search, never a panic, and the search for a name ends.
  pub parse_formats-returns :
      (d : Bytes)
      → (returns (parse_data_format decode_text d) ≡ true)
        × (returns (parse_super_extended_format decode_text d) ≡ true)
  unfolding parse_data_format parse_super_extended_format
  parse_formats-returns d = (
    ground (
      arith,
      uint32_ok {E = FormatError} d 4,
      uint32_ok {E = FormatError} d 12,
      read_fields-returns (be32_at d 4) 0 d,
    ),
    ground (
      arith,
      uint32_ok {E = FormatError} d 4,
      uint32_ok {E = FormatError} d 12,
      read_super_fields-returns (be32_at d 4) 0 d,
    ),
  )
