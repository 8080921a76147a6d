-- ===== src/Kvs/Wire.antt =====
-- The wire format of the key-value store's requests and responses (kvs/common/reqresp.go and
-- reqresp_marsh.go). A writer returns the bytes that it writes; a reader takes the bytes that are
-- there. The varints of Go's encoding/binary are a parameter.
use goxos.Base.{
  ℕ, zero, suc, ◌-◌, ◌%◌, ◌≡◌, ◌<◌, List, [], ◌∷◌, ◌++◌, ℤ, pos, negsuc, ltb, length, replicate,
  if◌then◌else◌,
}

-- `Read`, `Write`, `Delete`, of the type `CommandType`, an `int8`.
abbrev pub CommandType : Type 0
CommandType = ℤ

abbrev pub read_command : CommandType
read_command = pos 0

abbrev pub write_command : CommandType
write_command = pos 1

abbrev pub delete_command : CommandType
delete_command = pos 2

-- `byte(c)` of an `int8`, and `int8(b)` of a byte.
abbrev pub to_byte : CommandType → ℕ
to_byte (pos n) = n % 256
to_byte (negsuc n) = 255 - n % 256

abbrev pub of_byte : ℕ → CommandType
of_byte b = if ltb b 128 then pos b else negsuc (255 - b)

abbrev pub Bytes : Type 0
Bytes = List ℕ

-- `type MapRequest struct`
pub record MapRequest : Type 0 where
  pub ct : CommandType
  pub key : Bytes
  pub value : Bytes

-- `type MapResponse struct`
pub record MapResponse : Type 0 where
  pub to_type : CommandType
  pub value : Bytes
  pub found : ℕ
  pub err : Bytes

-- What reading comes to: a value and the bytes that are left, an error, or a run-time panic.
pub data Parsed {ℓ} (A : Type ℓ) : Type ℓ where
  ok : A → Bytes → Parsed A
  fails : Parsed A
  panics : Parsed A

infixl 5 ◌>>=◌
abbrev pub ◌>>=◌ {ℓ κ} : {A : Type ℓ} {B : Type κ} → Parsed A → (A → Bytes → Parsed B) → Parsed B
ok a rest >>= f = f a rest
fails >>= f = fails
panics >>= f = panics

-- What an `int64` holds.
abbrev pub IsInt64 : ℤ → Type 0
IsInt64 (pos n) = n < 9223372036854775808
IsInt64 (negsuc n) = n < 9223372036854775808

-- `binary.PutVarint` and `binary.ReadVarint`: an `int64` that is written is read back, whatever
-- follows it; zero is one zero byte.
pub record Varint : Type 0 where
  pub put : ℤ → Bytes
  pub read : Bytes → Parsed ℤ
  pub read-put : (n : ℤ) (rest : Bytes) → IsInt64 n → read (put n ++ rest) ≡ ok n rest
  pub put_zero : put (pos 0) ≡ 0 ∷ []

-- `io.ReadAtLeast(wire, bs, 1)`
abbrev pub read_byte : Bytes → Parsed ℕ
read_byte [] = fails
read_byte (b ∷ rest) = ok b rest

-- The loop that reads the bytes of a slice one by one.
unfoldable pub read_bytes : ℕ → Bytes → Parsed Bytes
read_bytes zero wire = ok [] wire
read_bytes (suc n) [] = fails
read_bytes (suc n) (b ∷ wire) = read_bytes n wire >>= λ bs rest. ok (b ∷ bs) rest

-- `make([]byte, n)` panics on a negative length, which is what the wire says. That the memory may
-- not hold the slice is not modelled.
abbrev pub read_slice : ℤ → Bytes → Parsed Bytes
read_slice (pos n) wire = read_bytes n wire
read_slice (negsuc n) wire = panics

-- The write of `Found`. If the value is empty, `bs` is still the buffer of ten bytes in which the
-- value's length was put, so nine bytes of it follow; they are zero.
abbrev pub put_found : Bytes → ℕ → Bytes
put_found [] found = found ∷ replicate 9 0
put_found (b ∷ bs) found = found ∷ []

module _ (v : Varint) where
  -- The writes of a slice: its length, and its bytes one by one.
  abbrev pub put_slice : Bytes → Bytes
  put_slice bs = v.put (pos (length bs)) ++ bs

  -- `MapRequest.Marshal`
  unfoldable pub marshal_request : MapRequest → Bytes
  marshal_request t = to_byte t.ct ∷ put_slice t.key ++ put_slice t.value

  -- `MapRequest.Unmarshal`
  unfoldable pub unmarshal_request : Bytes → Parsed MapRequest
  unfolding read_bytes
  unmarshal_request wire = read_byte wire >>= λ c wire. v.read wire >>= λ alen1 wire.
      read_slice alen1 wire >>= λ key wire. v.read wire >>= λ alen2 wire.
      read_slice alen2 wire >>= λ value wire.
      ok (record { ct = of_byte c; key = key; value = value }) wire

  -- `MapResponse.Marshal`
  unfoldable pub marshal_response : MapResponse → Bytes
  marshal_response t =
      to_byte t.to_type ∷ put_slice t.value ++ put_found t.value t.found ++ put_slice t.err

  -- `MapResponse.Unmarshal`
  unfoldable pub unmarshal_response : Bytes → Parsed MapResponse
  unfolding read_bytes
  unmarshal_response wire = read_byte wire >>= λ c wire. v.read wire >>= λ alen1 wire.
      read_slice alen1 wire >>= λ value wire. read_byte wire >>= λ found wire.
      v.read wire >>= λ alen2 wire. read_slice alen2 wire >>= λ err wire.
      ok (record { to_type = of_byte c; value = value; found = found; err = err }) wire
