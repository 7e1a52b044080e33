-- ===== src/Storage/Codec.antt =====
-- crates/kchat-storage-provider/src/codec.rs and wrappers.rs: how keys and entities become columns.
use kchat_rust_sdk.Base.{◌≡◌, Option, some, List, Bytes, or_fail}
use kchat_rust_sdk.Storage.Sqlite.{Fallible, to_sql_conversion_failure, from_sql_conversion_failure}

-- The trait `Codec` at one type; the errors of the codec are boxed and not read.
pub record Codec (T : Type 0) : Type 0 where
  pub to_vec : T → Option Bytes
  pub from_slice : Bytes → Option T

-- What the code relies on: what was encoded is decoded.
pub record RoundTrips {T : Type 0} (c : Codec T) : Type 0 where
  pub from_slice-to_vec : (x : T) (b : Bytes) → c.to_vec x ≡ some b → c.from_slice b ≡ some x

module _ {T : Type 0} where
  -- `KeyRefWrapper`
  unfoldable pub key_to_sql : Codec T → T → Fallible Bytes
  key_to_sql c x = or_fail (c.to_vec x) to_sql_conversion_failure

  -- `KeyWrapper`
  unfoldable pub key_from_sql : Codec T → Bytes → Fallible T
  key_from_sql c b = or_fail (c.from_slice b) from_sql_conversion_failure

  -- `EntityRefWrapper`
  unfoldable pub entity_to_sql : Codec T → T → Fallible Bytes
  entity_to_sql c x = or_fail (c.to_vec x) to_sql_conversion_failure

  -- `EntityWrapper`
  unfoldable pub entity_from_sql : Codec T → Bytes → Fallible T
  entity_from_sql c b = or_fail (c.from_slice b) from_sql_conversion_failure

  -- `EntitySliceWrapper`
  unfoldable pub slice_to_sql : Codec (List T) → List T → Fallible Bytes
  slice_to_sql c xs = or_fail (c.to_vec xs) to_sql_conversion_failure

  -- `EntityVecWrapper`
  unfoldable pub vec_from_sql : Codec (List T) → Bytes → Fallible (List T)
  vec_from_sql c b = or_fail (c.from_slice b) from_sql_conversion_failure
