-- ===== src/Values/Tag.antt =====
-- The type `Tag` of soroban-env-common/src/val.rs with its discriminants.
use Prim.Native.Nat.{ℕ}
use mathlib.Core.List.{List, [], ◌∷◌}
pub mod Codes

pub data Tag : Type 0 where
  false true void error u32_val i32_val u64_small i64_small timepoint_small duration_small : Tag
  u128_small i128_small u256_small i256_small symbol_small small_code_upper_bound : Tag
  object_code_lower_bound u64_object i64_object timepoint_object duration_object u128_object : Tag
  i128_object u256_object i256_object bytes_object string_object symbol_object vec_object : Tag
  map_object address_object muxed_address_object object_code_upper_bound bad : Tag

-- `tag as u8`.
abbrev pub to_u8 : Tag → ℕ
to_u8 false = 0
to_u8 true = 1
to_u8 void = 2
to_u8 error = 3
to_u8 u32_val = 4
to_u8 i32_val = 5
to_u8 u64_small = 6
to_u8 i64_small = 7
to_u8 timepoint_small = 8
to_u8 duration_small = 9
to_u8 u128_small = 10
to_u8 i128_small = 11
to_u8 u256_small = 12
to_u8 i256_small = 13
to_u8 symbol_small = 14
to_u8 small_code_upper_bound = 15
to_u8 object_code_lower_bound = 63
to_u8 u64_object = 64
to_u8 i64_object = 65
to_u8 timepoint_object = 66
to_u8 duration_object = 67
to_u8 u128_object = 68
to_u8 i128_object = 69
to_u8 u256_object = 70
to_u8 i256_object = 71
to_u8 bytes_object = 72
to_u8 string_object = 73
to_u8 symbol_object = 74
to_u8 vec_object = 75
to_u8 map_object = 76
to_u8 address_object = 77
to_u8 muxed_address_object = 78
to_u8 object_code_upper_bound = 79
to_u8 bad = 0x7f

-- Every tag, in the order of the source.
abbrev pub all_tags : List Tag
all_tags =
    false ∷ true ∷ void ∷ error ∷ u32_val ∷ i32_val ∷ u64_small ∷ i64_small ∷ timepoint_small
    ∷ duration_small ∷ u128_small ∷ i128_small ∷ u256_small ∷ i256_small ∷ symbol_small
    ∷ small_code_upper_bound ∷ object_code_lower_bound ∷ u64_object ∷ i64_object ∷ timepoint_object
    ∷ duration_object ∷ u128_object ∷ i128_object ∷ u256_object ∷ i256_object ∷ bytes_object
    ∷ string_object ∷ symbol_object ∷ vec_object ∷ map_object ∷ address_object
    ∷ muxed_address_object ∷ object_code_upper_bound ∷ bad ∷ []
