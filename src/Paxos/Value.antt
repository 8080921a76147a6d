-- ===== src/Paxos/Value.antt =====
-- Values that are proposed and decided (paxos/value.go), the client requests in them
-- (client/msgutils.go, and the getters of client/msg.pb.go), and the reconfiguration command
-- (paxos/reconfig.go). The request pointers in a value are not nil.
use Prim.Native.String.{String}
use text.Mathlib.Text.{◌==◌ as str_eq}
use goxos.Base.{
  ℕ, Bool, true, false, ◌&&◌, Option, none, some, List, [], ◌∷◌, ◌==◌, length, if◌then◌else◌,
}
use goxos.Grp.Id.{GrpId}
use goxos.Grp.NodeMap.{Node}

-- `client.Request`: the optional fields of the generated struct.
pub record Request : Type 0 where
  pub type : Option ℕ
  pub id : Option String
  pub seq : Option ℕ
  pub val : List ℕ

-- `GetType`, `GetId`, `GetSeq`
abbrev pub get_type : Request → ℕ
get_type r = elim r.type [ none ↦ 0 | some t ↦ t ]

abbrev pub get_id : Request → String
get_id r = elim r.id [ none ↦ "" | some t ↦ t ]

abbrev pub get_seq : Request → ℕ
get_seq r = elim r.seq [ none ↦ 0 | some t ↦ t ]

-- `bytes.Compare(a, b) == 0`
unfoldable pub bytes_eq : List ℕ → List ℕ → Bool
bytes_eq [] [] = true
bytes_eq [] (b ∷ bs) = false
bytes_eq (a ∷ as') [] = false
bytes_eq (a ∷ as') (b ∷ bs) = a == b && bytes_eq as' bs

-- `Request.Equal`
unfoldable pub request_equal : Request → Request → Bool
unfolding bytes_eq
request_equal r other =
    get_type r == get_type other
    && str_eq (get_id r) (get_id other)
    && get_seq r == get_seq other
    && bytes_eq r.val other.val

-- `ReconfigCmd`; the map's entries are listed.
pub record ReconfigCmd : Type 0 where
  pub nodes : List (GrpId × Node)
  pub new : GrpId

-- `ValueType`
pub data ValueType : Type 0 where
  noop app reconfig : ValueType

-- `type Value struct`
pub record Value : Type 0 where
  pub vt : ValueType
  pub cr : List Request
  pub rc : Option ReconfigCmd

-- `Value{}`
abbrev pub zero_value : Value
zero_value = record { vt = noop; cr = []; rc = none }

-- The loop of `Equal`, over slices of one length.
unfoldable pub requests_equal : List Request → List Request → Bool
unfolding request_equal
requests_equal [] _ = true
requests_equal (r ∷ rs) [] = true
requests_equal (r ∷ rs) (o ∷ os) = request_equal r o && requests_equal rs os

abbrev type_eq : ValueType → ValueType → Bool
type_eq noop noop = true
type_eq app app = true
type_eq reconfig reconfig = true
type_eq _ _ = false

equal_of_type : ValueType → Value → Value → Bool
unfolding requests_equal
equal_of_type noop v o = true
equal_of_type app v o = if length v.cr == length o.cr then requests_equal v.cr o.cr else false
equal_of_type reconfig v o = false

-- `Value.Equal`
unfoldable pub value_equal : Value → Value → Bool
unfolding equal_of_type
value_equal v o = if type_eq v.vt o.vt then equal_of_type v.vt v o else false
