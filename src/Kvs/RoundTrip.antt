-- ===== src/Kvs/RoundTrip.antt =====
-- What is marshalled is read back (kvs/common/reqresp_marsh.go), but for a response without a value.
use goxos.Base.{
  ℕ, ◌≡◌, ◌≢◌, refl, sym, subst, ◌∙◌, ap, ◌<◌, [], ◌∷◌, ◌++◌, pos, negsuc, length, arith, replicate,
}
use mathlib.Core.List.{append_assoc}
use goxos.Kvs.Wire.{
  CommandType, to_byte, of_byte, Bytes, MapRequest, MapResponse, ok, Varint, read_bytes, put_slice,
  marshal_request, unmarshal_request, put_found, marshal_response, unmarshal_response,
}

-- An `int8`.
abbrev pub IsInt8 : CommandType → Type 0
IsInt8 (pos n) = n < 128
IsInt8 (negsuc n) = n < 128

-- A length that an `int64` holds.
abbrev pub IsShort : Bytes → Type 0
IsShort bs = length bs < 9223372036854775808

of_byte-to_byte : (c : CommandType) → IsInt8 c → of_byte (to_byte c) ≡ c
of_byte-to_byte (pos n) h = ground arith
of_byte-to_byte (negsuc n) h = ground arith

read_bytes-append : (bs rest : Bytes) → read_bytes (length bs) (bs ++ rest) ≡ ok bs rest
unfolding read_bytes
read_bytes-append [] rest = refl
read_bytes-append (b ∷ bs) rest = rw (read_bytes-append bs rest) refl

put_found_some : (bs : Bytes) (found : ℕ) → bs ≢ [] → put_found bs found ≡ found ∷ []
put_found_some [] found h = absurd (h refl)
put_found_some (b ∷ bs) found h = refl

module _ (v : Varint) where
  read-put_slice :
      (bs rest : Bytes)
      → IsShort bs
      → v.read (put_slice v bs ++ rest) ≡ ok (pos (length bs)) (bs ++ rest)
  read-put_slice bs rest h =
      ap v.read (append_assoc (v.put (pos (length bs))) bs rest)
      ∙ v.read-put (pos (length bs)) (bs ++ rest) h

  -- A request is read back as it was, whatever follows it: the key, the value and the command, for
  -- slices whose lengths fit an `int64`.
  pub unmarshal_request-marshal_request :
      (t : MapRequest) (rest : Bytes)
      → IsInt8 t.ct
      → IsShort t.key
      → IsShort t.value
      → unmarshal_request v (marshal_request v t ++ rest) ≡ ok t rest
  unfolding unmarshal_request marshal_request
  unmarshal_request-marshal_request t rest c k l =
      rw (append_assoc (put_slice v t.key) (put_slice v t.value) rest) (
        rw (read-put_slice t.key (put_slice v t.value ++ rest) k) (
          rw (read_bytes-append t.key (put_slice v t.value ++ rest)) (
            rw (read-put_slice t.value rest l) (
              rw (read_bytes-append t.value rest)
                (ap (λ ct. ok (record t { ct = ct }) rest) (of_byte-to_byte t.ct c))))))

  -- A response with a value is read back as it was, whatever follows it, for slices whose lengths
  -- fit an `int64`.
  pub unmarshal_response-marshal_response :
      (t : MapResponse) (rest : Bytes)
      → IsInt8 t.to_type
      → IsShort t.value
      → IsShort t.err
      → t.value ≢ []
      → unmarshal_response v (marshal_response v t ++ rest) ≡ ok t rest
  unfolding unmarshal_response marshal_response
  unmarshal_response-marshal_response t rest c k l some_value =
      rw (put_found_some t.value t.found some_value) (
        rw
          (
            append_assoc (put_slice v t.value) (t.found ∷ []) (put_slice v t.err),
            append_assoc (put_slice v t.value) (t.found ∷ put_slice v t.err) rest,
          )
          (rw (read-put_slice t.value (t.found ∷ put_slice v t.err ++ rest) k) (
            rw (read_bytes-append t.value (t.found ∷ put_slice v t.err ++ rest)) (
              rw (read-put_slice t.err rest l) (
                rw (read_bytes-append t.err rest) (
                  ap (λ ct. ok (record t { to_type = ct }) rest) (of_byte-to_byte t.to_type c)))))))

  read_zero : (rest : Bytes) → v.read (0 ∷ rest) ≡ ok (pos 0) rest
  read_zero rest =
      subst (λ bs. v.read (bs ++ rest) ≡ ok (pos 0) rest) v.put_zero
        (v.read-put (pos 0) rest (omega arith))

  read-no_value :
      (c : CommandType) (found : ℕ) (err rest : Bytes)
      → unmarshal_response v (
          marshal_response v (record { to_type = c; value = []; found = found; err = err }) ++ rest)
        ≡ ok
            (record { to_type = of_byte (to_byte c); value = []; found = found; err = [] })
            (replicate 8 0 ++ put_slice v err ++ rest)
  unfolding unmarshal_response marshal_response read_bytes
  read-no_value c found err rest = rw v.put_zero (
      rw (read_zero (found ∷ replicate 9 0 ++ put_slice v err ++ rest))
        (rw (read_zero (replicate 8 0 ++ put_slice v err ++ rest)) refl))

  -- A response without a value is read back without its error: the reader takes a zero byte of the
  -- buffer for the error's length, and leaves the eight others and the error.
  pub unmarshal_response-no_value :
      (t : MapResponse) (rest : Bytes)
      → IsInt8 t.to_type
      → t.value ≡ []
      → unmarshal_response v (marshal_response v t ++ rest)
        ≡ ok (record t { err = [] }) (replicate 8 0 ++ put_slice v t.err ++ rest)
  unmarshal_response-no_value t rest c empty =
      subst
        (λ value.
          unmarshal_response v (marshal_response v (record t { value = value }) ++ rest)
          ≡ ok (record t { value = value; err = [] }) (replicate 8 0 ++ put_slice v t.err ++ rest))
        (sym empty)
        (read-no_value t.to_type t.found t.err rest
          ∙ ap
              (λ ct.
                ok (record t { to_type = ct; value = []; err = [] })
                  (replicate 8 0 ++ put_slice v t.err ++ rest))
              (of_byte-to_byte t.to_type c))
