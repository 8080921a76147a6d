-- ===== src/Reliablebc/Auth.antt =====
-- Message authentication (reliablebc/authmanager.go). HMAC-SHA1 and `strconv.AppendInt` are a
-- parameter.
use goxos.Base.{
  ℕ, ◌/◌, ◌%◌, Bool, Option, none, some, List, [], ◌∷◌, ℤ, eqb_ℤ, to_int, if◌then◌else◌,
}
use goxos.Grp.Id.{GrpId}
use goxos.Paxos.Value.{bytes_eq}

abbrev pub Bytes : Type 0
Bytes = List ℕ

-- `mac.Sum` of a key and a message, and `strconv.AppendInt(dst, i, 10)`.
pub record Crypto : Type 0 where
  pub sum : Bytes → Bytes → Bytes
  pub append_int : Bytes → ℤ → Bytes

-- `type AuthManager struct`; a key that is missing is nil.
pub record AuthManager : Type 0 where
  pub id : GrpId
  pub keys : ℤ → Option Bytes

abbrev key_of : Option Bytes → Bytes
key_of none = []
key_of (some key) = key

-- `hashToBytes`: the four bytes, the lowest first.
abbrev pub hash_to_bytes : ℕ → Bytes
hash_to_bytes hash =
    hash % 256 ∷ (hash / 256) % 256 ∷ (hash / 65536) % 256 ∷ (hash / 16777216) % 256 ∷ []

module _ (c : Crypto) where
  -- `generateMAC`
  unfoldable pub generate_mac : AuthManager → GrpId → Bytes → ℕ → Bytes
  generate_mac au dest value rnd =
      if eqb_ℤ dest.paxos_id au.id.paxos_id
      then []
      else c.sum (key_of (au.keys dest.paxos_id)) (c.append_int value (to_int rnd))

  -- `checkMAC`; `hmac.Equal` compares the bytes.
  unfoldable pub check_mac : AuthManager → GrpId → Bytes → Bytes → ℕ → Bool
  unfolding generate_mac bytes_eq
  check_mac au sender received value rnd = bytes_eq received (generate_mac au sender value rnd)
