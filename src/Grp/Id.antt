-- ===== src/Grp/Id.antt =====
-- Replica identities (grp/node.go): a Paxos id (an `int8`) and an epoch (a `uint64`), and their
-- order. `compare_to` returns the sign of the source's -1, 0 or 1.
use goxos.Base.{
  ℕ, Ordering, ◌≡◌, refl, ◌↔◌, Bool, true, ◌&&◌, arith, ℤ, negsuc, ltb, ltb_ℤ, eqb_ℤ, ◌==◌,
  if◌then◌else◌,
}

-- `type ID struct`
pub record GrpId : Type 0 where
  pub paxos_id : ℤ
  pub epoch : ℕ

abbrev pub new_id : ℤ → ℕ → GrpId
new_id id epoch = record { paxos_id = id; epoch = epoch }

abbrev pub undefined_id : GrpId
undefined_id = new_id (negsuc 0) 0

-- `CompareTo`
unfoldable pub compare_to : GrpId → GrpId → Ordering
compare_to id other =
    if ltb_ℤ other.paxos_id id.paxos_id
    then Ordering.gt
    else if ltb_ℤ id.paxos_id other.paxos_id
    then Ordering.lt
    else if ltb other.epoch id.epoch
    then Ordering.gt
    else if ltb id.epoch other.epoch
    then Ordering.lt
    else Ordering.eq

-- `a == b` on two structs
abbrev pub id_eq : GrpId → GrpId → Bool
id_eq a b = eqb_ℤ a.paxos_id b.paxos_id && a.epoch == b.epoch

-- The sign of the comparison with the sides exchanged.
abbrev pub flip : Ordering → Ordering
flip Ordering.lt = Ordering.gt
flip Ordering.eq = Ordering.eq
flip Ordering.gt = Ordering.lt

pub id_eq_iff : (a b : GrpId) → (id_eq a b ≡ true) ↔ (a ≡ b)
id_eq_iff a b = (λ h. ground arith, λ h. ground arith)

pub id_eq_refl : (a : GrpId) → id_eq a a ≡ true
id_eq_refl a = (id_eq_iff a a).1 refl

pub compare_to_refl : (a : GrpId) → compare_to a a ≡ Ordering.eq
unfolding compare_to
compare_to_refl a = ground arith

pub eq_of_compare_to : (a b : GrpId) → compare_to a b ≡ Ordering.eq → a ≡ b
unfolding compare_to
eq_of_compare_to a b h = ground arith

pub compare_to-flip : (a b : GrpId) → compare_to b a ≡ flip (compare_to a b)
unfolding compare_to
compare_to-flip a b = ground arith

pub compare_to_trans :
    (a b c : GrpId)
    → compare_to a b ≡ Ordering.lt
    → compare_to b c ≡ Ordering.lt
    → compare_to a c ≡ Ordering.lt
unfolding compare_to
compare_to_trans a b c h k = ground arith
