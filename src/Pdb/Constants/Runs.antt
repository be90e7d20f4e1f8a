-- ===== src/Pdb/Constants/Runs.antt =====
-- Runs on a constant of type I2 and on one with a modifier.
use dnmd.Base.{◌≡◌, refl}
use dnmd.Base.{[], ◌∷◌, some, true, ok}
use dnmd.Bytes.{Mdcdata, read_u16, read_le, read_sized, decompress_u32, decompress_onebyte}
use dnmd.Bytes.Check.{is_stream-IsStream}
use dnmd.Pdb.{mdbpr_success, Buffer, required_size, safe_add_size, safe_mul_size, in_buffer}
use dnmd.Pdb.Constants.{
  LocalConstantSig, mdck_primitive_constant, walk_modifiers, modifiers_from, skip_value,
  parse_integral, constant_of, fill_constant, md_parse_local_constant_sig,
}
use dnmd.Pdb.Constants.Modified.{md_parse_local_constant_sig-modified}
use dnmd.Pdb.Constants.Values.{IsIntegral, md_parse_local_constant_sig-IsIntegral}
use dnmd.Samples.{context_of}

abbrev buffer : Buffer
buffer = record { given = true; len = 48 }

-- The code of I2 and the number 5.
abbrev short : Mdcdata
short = record { ptr = 6 ∷ 5 ∷ 0 ∷ []; size = 3 }

abbrev behind_code : Mdcdata
behind_code = record { ptr = 5 ∷ 0 ∷ []; size = 2 }

abbrev short_sig : LocalConstantSig
short_sig = record {
  constant_kind = mdck_primitive_constant 6;
  value_blob = behind_code;
  custom_modifier_count = 0;
  custom_modifiers = [];
}

short_code : decompress_u32 short ≡ ok (6, behind_code)
unfolding decompress_u32 decompress_onebyte
short_code = refl

short_parsed :
    md_parse_local_constant_sig (some (context_of 0 [])) short buffer ≡ mdbpr_success short_sig
unfolding md_parse_local_constant_sig fill_constant constant_of parse_integral skip_value
    walk_modifiers modifiers_from decompress_u32 decompress_onebyte read_u16 read_le read_sized
    in_buffer required_size safe_add_size safe_mul_size
short_parsed = refl

md_parse_local_constant_sig-IsIntegral_example :
    IsIntegral 6 behind_code (mdck_primitive_constant 6) behind_code
md_parse_local_constant_sig-IsIntegral_example =
    md_parse_local_constant_sig-IsIntegral (context_of 0 []) short buffer (6, behind_code) short_sig
      (is_stream-IsStream short refl) short_code refl short_parsed

-- An optional modifier before I2.
abbrev modified : Mdcdata
modified = record { ptr = 0x20 ∷ 5 ∷ 6 ∷ 5 ∷ 0 ∷ []; size = 5 }

modified_code : decompress_u32 modified ≡ ok (0x20, record { ptr = 5 ∷ 6 ∷ 5 ∷ 0 ∷ []; size = 4 })
unfolding decompress_u32 decompress_onebyte
modified_code = refl

md_parse_local_constant_sig-modified_example : ¬ (
    md_parse_local_constant_sig (some (context_of 0 [])) modified buffer ≡ mdbpr_success short_sig)
md_parse_local_constant_sig-modified_example =
    md_parse_local_constant_sig-modified (some (context_of 0 [])) modified buffer
      (0x20, record { ptr = 5 ∷ 6 ∷ 5 ∷ 0 ∷ []; size = 4 }) short_sig modified_code refl
