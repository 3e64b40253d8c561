-- ===== src/IdGen.antt =====
-- pkg/util/idgen: numbers as base58 texts. Base58 is a parameter.
pub mod BigEndian
pub mod Uuid
use go_svc_extn.Prelude.{
  ℕ, ◌==◌, length, if◌then◌else◌, err, zero, suc, ◌+◌, ◌*◌, ◌/◌, ◌%◌, ◌^◌, Option, none, some, List,
  [], ◌∷◌, ◌++◌, Bytes, Result, ok, panic,
}

pub record Base58 : Type 0 where
  pub encode : Bytes → Bytes
  pub decode : Bytes → Bytes

-- `PutUint64` in big-endian order.
pub put_uint64 : ℕ → Bytes
put_uint64 v =
    v / 2 ^ 56 % 256
    ∷ v / 2 ^ 48 % 256
    ∷ v / 2 ^ 40 % 256
    ∷ v / 2 ^ 32 % 256
    ∷ v / 2 ^ 24 % 256
    ∷ v / 2 ^ 16 % 256
    ∷ v / 2 ^ 8 % 256
    ∷ v % 256
    ∷ []

-- `Uint64` of big-endian order: it reads eight bytes, and panics where there are fewer.
pub get_uint64 : {E : Type 0} → Bytes → Result E ℕ
get_uint64 (a ∷ b ∷ c ∷ d ∷ e ∷ f ∷ g ∷ h ∷ rest) =
    ok (a * 2 ^ 56 + b * 2 ^ 48 + c * 2 ^ 40 + d * 2 ^ 32 + e * 2 ^ 24 + f * 2 ^ 16 + g * 2 ^ 8 + h)
get_uint64 _ = panic

-- `EncodeUint64`
pub encode_uint64 : Base58 → ℕ → Bytes
unfolding put_uint64
encode_uint64 c v = c.encode (put_uint64 v)

-- `DecodeToUint64`
pub decode_to_uint64 : {E : Type 0} → Base58 → Bytes → Result E ℕ
unfolding get_uint64
decode_to_uint64 c s = get_uint64 (c.decode s)

-- `NewSnowflakeIdEnc`, of the number that the generator gives.
pub new_snowflake_id_enc : {World : Type 0} → Base58 → (World → ℕ × World) → World → Bytes × World
unfolding encode_uint64
new_snowflake_id_enc c next_id w = let (id, after) = next_id w in (encode_uint64 c id, after)

-- An error of `uuid.FromBytes`.
pub data Error : Type 0 where
  invalid_length : Error

-- `uuid.FromBytes`: the bytes of a UUID, of which there are 16.
pub from_bytes : Bytes → Result Error Bytes
from_bytes b = if length b == 16 then ok b else err invalid_length

-- `Encode`
pub encode_uuid : Base58 → Bytes → Bytes
encode_uuid c u = c.encode u

-- `DecodeToUuid`
pub decode_to_uuid : Base58 → Bytes → Result Error Bytes
unfolding from_bytes
decode_to_uuid c s = from_bytes (c.decode s)

-- `NewSnowflakeId`, by the generator, and `GenerateId`, which ignores its context.
pub new_snowflake_id {ℓ} : {W : Type ℓ} → (W → ℕ × W) → W → ℕ × W
new_snowflake_id next_id w = next_id w

pub generate_id {ℓ κ} : {Ctx : Type κ} {W : Type ℓ} → (W → ℕ × W) → Ctx → W → ℕ × W
unfolding new_snowflake_id
generate_id next_id ctx w = new_snowflake_id next_id w

-- `NewId`, by shortuuid.
pub new_id {ℓ} : {W : Type ℓ} → (W → Bytes × W) → W → Bytes × W
new_id short_uuid w = short_uuid w
