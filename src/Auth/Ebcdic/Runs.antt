-- ===== src/Auth/Ebcdic/Runs.antt =====
-- The theorem on EBCDIC fields at a concrete input.
use jt400_go.Prelude.{◌≡◌, refl, [], ◌∷◌}
use jt400_go.Go.{ok, Bytes}
use jt400_go.Auth.Ebcdic.{encode_ebcdic_padded, encode_ebcdic, lookup, ascii_to_ebcdic, run}

abbrev coded : Bytes
coded = 0xD8 ∷ 0xE2 ∷ 0xF1 ∷ 0x40 ∷ 0x40 ∷ []

padded_run : encode_ebcdic_padded (b'Q' ∷ b'S' ∷ b'1' ∷ []) 5 ≡ ok coded
unfolding encode_ebcdic_padded encode_ebcdic lookup ascii_to_ebcdic run
padded_run = refl
