-- ===== src/Tests/Stores.antt =====
-- The key-value store (kvs/common, kvs/kvsd) on concrete requests.
use goxos.Base.{ℕ, ◌≡◌, refl, none, List, [], ◌∷◌, ◌++◌, negsuc, arith, map, replicate}
use goxos.Base.Outcome.{panic}
use goxos.Kvs.Wire.{
  Bytes, MapRequest, MapResponse, ok, read_command, write_command, delete_command, marshal_request,
  unmarshal_request, marshal_response, unmarshal_response, put_slice,
}
use goxos.Kvs.Leb128.{go_varint}
use goxos.Kvs.RoundTrip.{
  unmarshal_request-marshal_request, unmarshal_response-marshal_response,
  unmarshal_response-no_value,
}
use goxos.Kvs.Store.{KvMap, execute}
use goxos.Kvs.History.{IsRequest, run, Refines, run-Refines, execute-negative_length}

-- Requests on two keys.
abbrev write : Bytes → Bytes → MapRequest
write k x = record { ct = write_command; key = k; value = x }

abbrev requests : List MapRequest
requests =
    write (7 ∷ []) (1 ∷ 2 ∷ [])
    ∷ write (8 ∷ []) (3 ∷ [])
    ∷ record { ct = delete_command; key = 8 ∷ []; value = [] }
    ∷ write (7 ∷ []) (5 ∷ [])
    ∷ []

abbrev empty : KvMap
empty k = none

short : (k x : ℕ) → IsRequest (write (k ∷ []) (x ∷ []))
short k x = record { is_int8 = omega arith; short_key = omega arith; short_value = omega arith }

run-Refines_example :
    Refines go_varint empty requests
      (run go_varint empty (map (marshal_request go_varint) requests))
run-Refines_example = run-Refines go_varint requests empty (
  record { is_int8 = omega arith; short_key = omega arith; short_value = omega arith },
  (
    short 8 3,
    (
      record { is_int8 = omega arith; short_key = omega arith; short_value = omega arith },
      (short 7 5, tt),
    ),
  ),
)

unmarshal_request-marshal_request_example :
    unmarshal_request go_varint (marshal_request go_varint (write (7 ∷ []) (1 ∷ 2 ∷ [])) ++ 9 ∷ [])
    ≡ ok (write (7 ∷ []) (1 ∷ 2 ∷ [])) (9 ∷ [])
unmarshal_request-marshal_request_example =
    unmarshal_request-marshal_request go_varint (write (7 ∷ []) (1 ∷ 2 ∷ [])) (9 ∷ []) (omega arith)
      (omega arith) (omega arith)

abbrev response : MapResponse
response = record { to_type = read_command; value = 1 ∷ 2 ∷ []; found = 1; err = 4 ∷ [] }

unmarshal_response-marshal_response_example :
    unmarshal_response go_varint (marshal_response go_varint response ++ []) ≡ ok response []
unmarshal_response-marshal_response_example =
    unmarshal_response-marshal_response go_varint response [] (omega arith) (omega arith)
      (omega arith) (λ e. cc)

-- The response to a request that is not known: its error is lost.
unmarshal_response-no_value_example :
    unmarshal_response go_varint (marshal_response go_varint (record response { value = [] }) ++ [])
    ≡ ok
        (record response { value = []; err = [] })
        (replicate 8 0 ++ put_slice go_varint (4 ∷ []) ++ [])
unmarshal_response-no_value_example =
    unmarshal_response-no_value go_varint (record response { value = [] }) [] (omega arith) refl

execute-negative_length_example : execute go_varint empty (1 ∷ go_varint.put (negsuc 4)) ≡ panic
execute-negative_length_example = execute-negative_length go_varint empty 1 4 (omega arith)
