-- ===== src/Paxos/Round.antt =====
-- Proposal numbers (paxos/proprnd.go) and their order.
use goxos.Base.{
  ℕ, ◌+◌, Ordering, ◌≡◌, ◌≢◌, ◌⊎◌, inl, inr, pos, Bool, true, false, arith, inc, ltb, ◌==◌,
  if◌then◌else◌, Ordering-cases,
}
use goxos.Grp.Id.{
  GrpId, new_id, compare_to, flip, compare_to_refl, eq_of_compare_to, compare_to-flip,
  compare_to_trans,
}

-- `type ProposerRound struct`
pub record ProposerRound : Type 0 where
  pub rnd : ℕ
  pub id : GrpId

-- `ZeroRound`
abbrev pub zero_round : ProposerRound
zero_round = record { rnd = 0; id = new_id (pos 0) 0 }

-- `NewProposerRound`
abbrev pub new_proposer_round : GrpId → ProposerRound
new_proposer_round id = record { rnd = 1; id = id }

-- `Compare`; the result is the sign of the source's -1, 0 or 1.
unfoldable pub compare_round : ProposerRound → ProposerRound → Ordering
compare_round r o =
    if r.rnd == o.rnd
    then compare_to r.id o.id
    else if ltb r.rnd o.rnd
    then Ordering.lt
    else Ordering.gt

-- `Next`
abbrev pub next_round : ProposerRound → ProposerRound
next_round r = record r { rnd = inc r.rnd }

-- `SetOwner`
abbrev pub set_owner : ProposerRound → GrpId → ProposerRound
set_owner r id = record r { id = id }

-- The tests that the actors make of a comparison's result.
abbrev pub is_lt : Ordering → Bool
is_lt Ordering.lt = true
is_lt _ = false

abbrev pub is_eq : Ordering → Bool
is_eq Ordering.eq = true
is_eq _ = false

abbrev pub is_gt : Ordering → Bool
is_gt Ordering.gt = true
is_gt _ = false

-- `>= 0`
abbrev pub is_ge : Ordering → Bool
is_ge Ordering.lt = false
is_ge _ = true

-- The order of rounds, as statements.
abbrev pub RoundLt : ProposerRound → ProposerRound → Type 0
RoundLt r o = compare_round r o ≡ Ordering.lt

abbrev pub RoundLe : ProposerRound → ProposerRound → Type 0
RoundLe r o = compare_round r o ≢ Ordering.gt

pub compare_round_refl : (r : ProposerRound) → compare_round r r ≡ Ordering.eq
unfolding compare_round
compare_round_refl r = ground (arith, compare_to_refl r.id)

pub eq_of_compare_round : (r o : ProposerRound) → compare_round r o ≡ Ordering.eq → r ≡ o
unfolding compare_round
eq_of_compare_round r o h = ground (arith, eq_of_compare_to r.id o.id)

pub compare_round-flip : (r o : ProposerRound) → compare_round o r ≡ flip (compare_round r o)
unfolding compare_round
compare_round-flip r o = ground (arith, compare_to-flip r.id o.id)

pub compare_round_trans : (a b c : ProposerRound) → RoundLt a b → RoundLt b c → RoundLt a c
unfolding compare_round
compare_round_trans a b c h k = ground (arith, compare_to_trans a.id b.id c.id)

pub RoundLe-refl : (r : ProposerRound) → RoundLe r r
RoundLe-refl r h = ground (arith, compare_round_refl r)

pub RoundLe-of_lt : (a b : ProposerRound) → RoundLt a b → RoundLe a b
RoundLe-of_lt a b h k = ground arith

-- The comparison as a three-way choice of facts.
pub RoundLe-cases : (a b : ProposerRound) → RoundLe a b → (a ≡ b) ⊎ RoundLt a b
RoundLe-cases a b h = elim (Ordering-cases (compare_round a b)) [
  | inl l ↦ inr l
  | inr (inl e) ↦ inl (eq_of_compare_round a b e)
  | inr (inr g) ↦ absurd (h g)
]

pub RoundLe-trans : (a b c : ProposerRound) → RoundLe a b → RoundLe b c → RoundLe a c
RoundLe-trans a b c h k = elim (RoundLe-cases a b h) [
  | inl e ↦ rw e k
  | inr l ↦ elim (RoundLe-cases b c k) [
    | inl e ↦ rw (← e) h
    | inr m ↦ RoundLe-of_lt a c (compare_round_trans a b c l m)
  ]
]

pub RoundLt-irrefl : (a : ProposerRound) → ¬ RoundLt a a
RoundLt-irrefl a h = ground (arith, compare_round_refl a)

pub RoundLt-le_trans : (a b c : ProposerRound) → RoundLt a b → RoundLe b c → RoundLt a c
RoundLt-le_trans a b c h k = elim (RoundLe-cases b c k) [
  | inl e ↦ rw (← e) h
  | inr m ↦ compare_round_trans a b c h m
]

-- A round and its successor by the same owner.
pub next_round-gt : (r : ProposerRound) → r.rnd + 1 ≡ inc r.rnd → RoundLt r (next_round r)
unfolding compare_round
next_round-gt r h = ground arith

pub RoundLe-lt_trans : (a b c : ProposerRound) → RoundLe a b → RoundLt b c → RoundLt a c
RoundLe-lt_trans a b c h k = elim (RoundLe-cases a b h) [
  | inl e ↦ rw e k
  | inr l ↦ compare_round_trans a b c l k
]
