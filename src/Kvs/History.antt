-- ===== src/Kvs/History.antt =====
-- What the store answers after any list of requests (kvs/kvsd/handler.go).
use goxos.Base.{
  ℕ, suc, ◌≡◌, refl, sym, subst, ◌∙◌, ap, ◌<◌, Option, none, some, List, [], ◌∷◌, negsuc, eqb_ℤ,
  length, arith, map, All, if◌then◌else◌,
}
use mathlib.Core.List.{append-nil}
use goxos.Base.Outcome.{Outcome, done, panic, diverge, ◌>>=◌}
use goxos.Paxos.Value.{bytes_eq}
use goxos.Kvs.Wire.{
  Bytes, MapRequest, ok, panics, Varint, read_command, write_command, delete_command,
  marshal_request, marshal_response, unmarshal_request,
}
use goxos.Kvs.RoundTrip.{IsInt8, IsShort, unmarshal_request-marshal_request}
use goxos.Kvs.Store.{KvMap, write_key, delete_key, handle, execute, read_response}

-- A request that can be marshalled.
pub record IsRequest (t : MapRequest) : Type 0 where
  pub is_int8 : IsInt8 t.ct
  pub short_key : IsShort t.key
  pub short_value : IsShort t.value

-- The calls of `Execute` for a list of requests, as their bytes: the store, and the responses.
unfoldable pub run : Varint → KvMap → List Bytes → Outcome (KvMap × List Bytes)
run v kv [] = done (kv, [])
run v kv (req ∷ reqs) = execute v kv req >>= λ r. run v r.0 reqs >>= λ r'. done (r'.0, r.1 ∷ r'.1)

-- The value that a list of requests leaves under a key: that of the last write of the key, unless a
-- delete of it follows; without either, what was there before.
unfoldable pub last_write : Bytes → Option Bytes → List MapRequest → Option Bytes
last_write k old [] = old
last_write k old (t ∷ ts) =
    let kept = last_write k old ts in
    let new =
      last_write k
        (if eqb_ℤ t.ct write_command
          then some t.value
          else if eqb_ℤ t.ct delete_command
          then none
          else old)
        ts in
    if bytes_eq t.key k then new else kept

execute-marshal_request :
    (v : Varint) (kv : KvMap) (t : MapRequest)
    → IsRequest t
    → execute v kv (marshal_request v t)
      ≡ done ((handle kv t).0, marshal_response v (handle kv t).1)
unfolding execute
execute-marshal_request v kv t h =
    let e : unmarshal_request v (marshal_request v t) ≡ ok t [] =
      ap (unmarshal_request v) (sym (append-nil (marshal_request v t)))
      ∙ unmarshal_request-marshal_request v t [] h.is_int8 h.short_key h.short_value in
    rw (e, execute) refl

-- What one request does to a key.
last_write-cons :
    (kv : KvMap) (t : MapRequest) (k : Bytes) (ts : List MapRequest)
    → last_write k ((handle kv t).0 k) ts ≡ last_write k (kv k) (t ∷ ts)
unfolding last_write handle write_key delete_key
last_write-cons kv t k ts = ground arith

-- The store after a run, and what it answers to a read.
abbrev pub Refines : Varint → KvMap → List MapRequest → Outcome (KvMap × List Bytes) → Type 0
Refines v kv ts (done (kv', resps)) =
    (length resps ≡ length ts)
    × ((k : Bytes) → kv' k ≡ last_write k (kv k) ts)
    × ((k : Bytes)
        → IsShort k
        → execute v kv' (marshal_request v (record { ct = read_command; key = k; value = [] }))
          ≡ done (kv', marshal_response v (read_response (last_write k (kv k) ts))))
Refines v kv ts panic = ⊥
Refines v kv ts diverge = ⊥

Refines-of_keys :
    (v : Varint) (kv kv' : KvMap) (ts : List MapRequest) (resps : List Bytes)
    → length resps ≡ length ts
    → ((k : Bytes) → kv' k ≡ last_write k (kv k) ts)
    → Refines v kv ts (done (kv', resps))
Refines-of_keys v kv kv' ts resps long keys = (
  long,
  keys,
  λ k short.
      execute-marshal_request v kv' (record { ct = read_command; key = k; value = [] })
        (record { is_int8 = omega arith; short_key = short; short_value = omega arith })
      ∙ unfold handle in ap (λ x. done (kv', marshal_response v (read_response x))) (keys k),
)

Refines-cons :
    (v : Varint) (kv : KvMap) (t : MapRequest) (ts : List MapRequest) (resp : Bytes)
    (o : Outcome (KvMap × List Bytes))
    → Refines v (handle kv t).0 ts o
    → Refines v kv (t ∷ ts) (o >>= λ r'. done (r'.0, resp ∷ r'.1))
Refines-cons v kv t ts resp (done (kv', resps)) (long, keys, _) =
    Refines-of_keys v kv kv' (t ∷ ts) (resp ∷ resps) (ap suc long)
      (λ k. keys k ∙ last_write-cons kv t k ts)
Refines-cons v kv t ts resp panic h = h
Refines-cons v kv t ts resp diverge h = h

-- After any list of marshalled requests, whose commands fit an `int8` and whose slices fit an
-- `int64`, the store has answered each one, holds under each key the value of the last write to it
-- that no delete follows (or what it held before, if there was neither), and answers a read of a
-- key by that value.
pub run-Refines :
    (v : Varint) (ts : List MapRequest) (kv : KvMap)
    → All IsRequest ts
    → Refines v kv ts (run v kv (map (marshal_request v) ts))
unfolding run last_write
run-Refines v [] kv h = Refines-of_keys v kv kv [] [] refl (λ k. refl)
run-Refines v (t ∷ ts) kv (h, hs) =
    subst
      (λ o.
        Refines v kv (t ∷ ts)
          (o >>= λ r. run v r.0 (map (marshal_request v) ts) >>= λ r'. done (r'.0, r.1 ∷ r'.1)))
      (sym (execute-marshal_request v kv t h))
      (Refines-cons v kv t ts (marshal_response v (handle kv t).1)
        (run v (handle kv t).0 (map (marshal_request v) ts)) (run-Refines v ts (handle kv t).0 hs))

-- A request whose key length is a negative number crashes the replica that executes it: any first
-- byte, and the varint of such an `int64`.
pub execute-negative_length :
    (v : Varint) (kv : KvMap) (c n : ℕ)
    → n < 9223372036854775808
    → execute v kv (c ∷ v.put (negsuc n)) ≡ panic
unfolding execute unmarshal_request
execute-negative_length v kv c n h =
    let e : v.read (v.put (negsuc n)) ≡ ok (negsuc n) [] =
      ap v.read (sym (append-nil (v.put (negsuc n)))) ∙ v.read-put (negsuc n) [] h in
    let u : unmarshal_request v (c ∷ v.put (negsuc n)) ≡ panics = rw (e, unmarshal_request) refl in
    rw (u, execute) refl
