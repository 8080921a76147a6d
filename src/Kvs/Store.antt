-- ===== src/Kvs/Store.antt =====
-- The handler of the key-value store (kvs/kvsd/handler.go): `Execute` takes a marshalled request
-- and returns a marshalled response. The package's buffer and its request and response variables are
-- overwritten in each call.
use Prim.Native.Char.{code}
use Prim.Native.String.{String}
use goxos.Base.{Option, none, some, [], ◌∷◌, eqb_ℤ, if◌then◌else◌}
use goxos.Base.Outcome.{Outcome, done, panic}
use goxos.Paxos.Value.{bytes_eq}
use goxos.Kvs.Wire.{
  Bytes, MapRequest, MapResponse, ok, fails, panics, Varint, read_command, write_command,
  delete_command, marshal_response, unmarshal_request,
}

-- `map[string][]byte`, by the bytes of the key.
abbrev pub KvMap : Type 0
KvMap = Bytes → Option Bytes

-- `kvmap[k] = x`, and `delete(kvmap, k)`
unfoldable pub write_key : KvMap → Bytes → Bytes → KvMap
write_key kv k x j = if bytes_eq k j then some x else kv j

unfoldable pub delete_key : KvMap → Bytes → KvMap
delete_key kv k j = if bytes_eq k j then none else kv j

-- The bytes of an ASCII text.
abbrev codes : String → Bytes
codes String.[] = []
codes (String.◌∷◌ c s) = code c ∷ codes s

-- `kc.MapResponse{}`
abbrev pub no_response : MapResponse
no_response = record { to_type = read_command; value = []; found = 0; err = [] }

-- The response to a read, of the value that was found.
abbrev pub read_response : Option Bytes → MapResponse
read_response none = record no_response { to_type = read_command }
read_response (some val) = record no_response { to_type = read_command; value = val; found = 1 }

-- The switch on the command.
unfoldable pub handle : KvMap → MapRequest → KvMap × MapResponse
unfolding write_key delete_key
handle kv kvreq =
    if eqb_ℤ kvreq.ct read_command
    then (kv, read_response (kv kvreq.key))
    else if eqb_ℤ kvreq.ct write_command
    then (
      write_key kv kvreq.key kvreq.value,
      record no_response { to_type = write_command; value = kvreq.value },
    )
    else if eqb_ℤ kvreq.ct delete_command
    then (delete_key kv kvreq.key, record no_response { to_type = delete_command })
    else (kv, record no_response { err = codes "Unkown map command" })

-- `Execute`
unfoldable pub execute : Varint → KvMap → Bytes → Outcome (KvMap × Bytes)
unfolding unmarshal_request marshal_response handle
execute v kv req = elim (unmarshal_request v req) [
  | panics ↦ panic
  | fails ↦
      done
        (kv, marshal_response v (record no_response { err = codes "I can't decode you request" }))
  | ok kvreq rest ↦ let (kv', kvresp) = handle kv kvreq in done (kv', marshal_response v kvresp)
]
