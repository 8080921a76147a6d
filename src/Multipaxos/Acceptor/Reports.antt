-- ===== src/Multipaxos/Acceptor/Reports.antt =====
-- Which slots a promise reports (the loop of the prepare handlers of multipaxos/acceptor.go).
use mathlib.Core.List.{Memᴰ}
use goxos.Base.{
  ℕ, zero, suc, ◌+◌, ◌≡◌, inl, inr, refl, sym, subst, Bool, true, false, some, List, [], ◌∷◌, ◌++◌,
  ◌≤◌, ◌<◌, arith, ◌==◌, Bool-cases, All, if◌then◌else◌, ==_iff,
}
use goxos.Paxos.Round.{zero_round, compare_round_refl}
use goxos.Paxos.Msg.{AcceptorSlot}
use goxos.Paxos.Slots.{AcceptorSlotMap, acceptor_slot_of}
use goxos.Multipaxos.Acceptor.{has_voted}
use goxos.Multipaxos.Acceptor.Promises.{votes_from}

pub mem-append_right {ℓ} : {A : Type ℓ} {a : A} (xs ys : List A) → Memᴰ a ys → Memᴰ a (xs ++ ys)
mem-append_right [] ys m = m
mem-append_right (x ∷ xs) ys m = Memᴰ.tail (mem-append_right xs ys m)

mem-if {ℓ} :
    {A : Type ℓ} {a : A} (x : A) (ys : List A) (b : Bool)
    → Memᴰ a ys
    → Memᴰ a (if b then x ∷ ys else ys)
mem-if x ys true m = Memᴰ.tail m
mem-if x ys false m = m

mem-if_head {ℓ} :
    {A : Type ℓ} (x : A) (ys : List A) (b : Bool) → b ≡ true → Memᴰ x (if b then x ∷ ys else ys)
mem-if_head x ys true h = Memᴰ.head refl
mem-if_head x ys false h = cc

All-if {ℓ κ} :
    {A : Type ℓ} (P : A → Type κ) (x : A) (ys : List A) (b : Bool)
    → (b ≡ true → P x)
    → All P ys
    → All P (if b then x ∷ ys else ys)
All-if P x ys true h hs = (h refl, hs)
All-if P x ys false h hs = hs

pub votes_from-mem :
    (sm : AcceptorSlotMap) (n i k : ℕ)
    → i ≤ k
    → k < i + n
    → has_voted (acceptor_slot_of sm.slots k) ≡ true
    → Memᴰ (acceptor_slot_of sm.slots k) (votes_from sm n i)
unfolding votes_from
votes_from-mem sm zero i k lo hi v = absurd (omega arith)
votes_from-mem sm (suc n) i k lo hi v = elim (Bool-cases (i == k)) [
  | inl here ↦
      subst (λ j. Memᴰ (acceptor_slot_of sm.slots j) (votes_from sm (suc n) i))
        ((==_iff i k).0 here)
        (mem-if_head (acceptor_slot_of sm.slots i) (votes_from sm n (i + 1))
          (has_voted (acceptor_slot_of sm.slots i))
          (subst (λ j. has_voted (acceptor_slot_of sm.slots j) ≡ true) (sym ((==_iff i k).0 here))
            v))
  | inr later ↦
      mem-if (acceptor_slot_of sm.slots i) (votes_from sm n (i + 1))
        (has_voted (acceptor_slot_of sm.slots i))
        (votes_from-mem sm n (i + 1) k (ground arith) (omega arith) v)
]

-- A slot that a promise may carry beside the zero slots: one that the map stores, at or above
-- the slot of the prepare, with a vote.
abbrev pub IsVote : AcceptorSlotMap → ℕ → AcceptorSlot → Type 0
IsVote sm from s = (k : ℕ) × (from ≤ k) × (sm.slots k ≡ some s) × (has_voted s ≡ true)

stored_of_vote :
    (sm : AcceptorSlotMap) (k : ℕ)
    → has_voted (acceptor_slot_of sm.slots k) ≡ true
    → sm.slots k ≡ some (acceptor_slot_of sm.slots k)
stored_of_vote sm k v = ground (arith, compare_round_refl zero_round)

pub votes_from-IsVote :
    (sm : AcceptorSlotMap) (n i from : ℕ) → from ≤ i → All (IsVote sm from) (votes_from sm n i)
unfolding votes_from
votes_from-IsVote sm zero i from h = tt
votes_from-IsVote sm (suc n) i from h =
    All-if (IsVote sm from) (acceptor_slot_of sm.slots i) (votes_from sm n (i + 1))
      (has_voted (acceptor_slot_of sm.slots i)) (λ v. (i, h, stored_of_vote sm i v, v))
      (votes_from-IsVote sm n (i + 1) from (omega arith))
