-- ===== src/Multipaxos/Learner/Live.antt =====
-- The learner's `handleLrnLr` (multipaxos/learner.go), which counts learns under live replacement,
-- and the quorum behind a value that it returns.
use goxos.Base.{
  ℕ, ◌+◌, ◌≡◌, ◌≢◌, ◌⊎◌, inl, inr, refl, sym, subst, ◌∙◌, ap, Bool, true, false, not, ◌||◌, Option,
  none, some, List, [], ◌∷◌, ◌++◌, ◌≤◌, ◌<◌, arith, ltb, length, length-append, get_elem?,
  Bool-cases, Ordering, Ordering-cases, inc, uint_mod, if◌then◌else◌, All, All-append, All-mono,
}
use goxos.Base.Outcome.{Outcome, done, panic, diverge, ◌>>=◌, or_panic}
use goxos.Grp.Id.{flip, id_eq_refl}
use goxos.Grp.NodeMap.{GrpMgr, quorum, epochs, epoch_slices_equal}
use goxos.Paxos.Round.{compare_round, compare_round-flip, RoundLt, eq_of_compare_round}
use goxos.Paxos.Value.{Value}
use goxos.Paxos.Msg.{Learn}
use goxos.Paxos.SlotsLr.{LearnerLrSlot, nobody, mark}
use goxos.Lr.ValidQuorum.{extract_vq}

-- The test of the epoch vectors.
abbrev pub note_epochs : GrpMgr → LearnerLrSlot → Learn → LearnerLrSlot
note_epochs g slot msg = record slot {
  check_vq = slot.check_vq || not (epoch_slices_equal msg.epoch_vector (epochs g));
}

-- The second case of the switch resets the slot for the message's round.
abbrev pub reset_slot_lr : LearnerLrSlot → Learn → LearnerLrSlot
reset_slot_lr slot msg = record slot { rnd = msg.rnd; learns = []; votes = 0; voted = nobody }

-- The learn that the valid quorum's first index names.
unfoldable pub first_valid : List Learn → List ℕ → Outcome Learn
first_valid learns [] = panic
first_valid learns (j ∷ js) = or_panic (get_elem? learns j)

-- From the test of the quorum on, with the slot as it is written.
unfoldable pub check_learns_lr :
    GrpMgr → LearnerLrSlot → Learn → Outcome (LearnerLrSlot × Option (Value × ℕ))
unfolding first_valid
check_learns_lr g slot msg =
    if ltb slot.votes (quorum g)
    then done (slot, none)
    else if not slot.check_vq
    then done (slot, some (msg.val, slot.id))
    else (extract_vq (λ (l : Learn). l.id) (λ l. l.epoch_vector) slot.learns (quorum g) >>= λ r.
        if r.0
        then (first_valid slot.learns r.1 >>= λ l. done (slot, some (l.val, slot.id)))
        else done (slot, none))

-- The third case: count the learn, unless the replica's is there.
abbrev pub counted_lr : LearnerLrSlot → Learn → LearnerLrSlot
counted_lr slot msg = record slot {
  votes = inc slot.votes;
  voted = mark slot.voted msg.id;
  learns = slot.learns ++ msg ∷ [];
}

unfoldable pub count_learn_lr :
    GrpMgr → LearnerLrSlot → Learn → Outcome (LearnerLrSlot × Option (Value × ℕ))
unfolding check_learns_lr
count_learn_lr g slot msg =
    if slot.voted msg.id then done (slot, none) else check_learns_lr g (counted_lr slot msg) msg

-- `handleLrnLr` on a slot that is not learned.
unfoldable pub learn_slot_lr :
    GrpMgr → LearnerLrSlot → Learn → Outcome (LearnerLrSlot × Option (Value × ℕ))
learn_slot_lr g slot msg =
    let slot' = note_epochs g slot msg in
    elim (compare_round slot'.rnd msg.rnd) [
      | Ordering.gt ↦ done (slot', none)
      | Ordering.lt ↦ count_learn_lr g (reset_slot_lr slot' msg) msg
      | Ordering.eq ↦ count_learn_lr g slot' msg
    ]

-- No two learns are of one sender.
abbrev pub Apart : List Learn → Type 0
Apart [] = Unit
Apart (l ∷ ls) = All (λ (m : Learn). l.id ≢ m.id) ls × Apart ls

-- The learns of a slot: of different senders, each marked, and of the slot's round; they are as many
-- as the votes.
pub record LiveBallot (slot : LearnerLrSlot) : Type 0 where
  pub counted : slot.votes ≡ length slot.learns
  pub own : All (λ (l : Learn). (l.rnd ≡ slot.rnd) × (slot.voted l.id ≡ true)) slot.learns
  pub apart : Apart slot.learns

-- What a learn comes to: a value at a quorum of learns in its round, and none before it. If the
-- slot's epoch vectors are checked, there may be no value at a quorum, or no result.
abbrev pub IsLiveBallot :
    Type 0 → Type 0 → GrpMgr → Learn → Outcome (LearnerLrSlot × Option (Value × ℕ)) → Type 0
IsLiveBallot Ignored Checks g msg (done (slot, none)) =
    LiveBallot slot × (Ignored ⊎ Checks ⊎ (length slot.learns < quorum g))
IsLiveBallot Ignored Checks g msg (done (slot, some (v, k))) =
    LiveBallot slot
    × (slot.rnd ≡ msg.rnd)
    × (quorum g ≤ length slot.learns)
    × (Checks ⊎ (v ≡ msg.val))
IsLiveBallot Ignored Checks g msg panic = Checks
IsLiveBallot Ignored Checks g msg diverge = Checks

Apart-append :
    (ls : List Learn) (m : Learn)
    → Apart ls
    → All (λ (l : Learn). l.id ≢ m.id) ls
    → Apart (ls ++ m ∷ [])
Apart-append [] m a h = (tt, tt)
Apart-append (l ∷ ls) m (first, others) (ne, h) =
    (All-append (λ (x : Learn). l.id ≢ x.id) ls (m ∷ []) first (ne, tt), Apart-append ls m others h)

counted_lr-LiveBallot :
    (slot : LearnerLrSlot) (msg : Learn)
    → length slot.learns + 1 < uint_mod
    → slot.voted msg.id ≡ false
    → slot.rnd ≡ msg.rnd
    → LiveBallot slot
    → LiveBallot (counted_lr slot msg)
counted_lr-LiveBallot slot msg room new same b = record {
  counted = omega (arith, b.counted, length-append slot.learns (msg ∷ []));
  own =
      All-append (λ (l : Learn). (l.rnd ≡ slot.rnd) × (mark slot.voted msg.id l.id ≡ true))
        slot.learns (msg ∷ [])
        (All-mono (λ (l : Learn). (l.rnd ≡ slot.rnd) × (slot.voted l.id ≡ true))
          (λ (l : Learn). (l.rnd ≡ slot.rnd) × (mark slot.voted msg.id l.id ≡ true)) slot.learns
          (λ l h. (h.0, let marked : slot.voted l.id ≡ true = h.1 in ground arith)) b.own)
        ((sym same, ground (arith, id_eq_refl msg.id)), tt);
  apart = Apart-append slot.learns msg b.apart (
      All-mono (λ (l : Learn). (l.rnd ≡ slot.rnd) × (slot.voted l.id ≡ true))
        (λ (l : Learn). l.id ≢ msg.id) slot.learns
        (λ l h e.
          let x : slot.voted l.id ≡ slot.voted msg.id = ap slot.voted e in
          let marked : slot.voted l.id ≡ true = h.1 in ground arith)
        b.own);
}

module _ (Ignored Checks : Type 0) (g : GrpMgr) (slot : LearnerLrSlot) (msg : Learn)
    (b : LiveBallot slot) (same : slot.rnd ≡ msg.rnd) (enough : quorum g ≤ length slot.learns)
    (checks : Checks) where
  IsLiveBallot-of_valid :
      (o : Outcome Learn)
      → IsLiveBallot Ignored Checks g msg (o >>= λ l. done (slot, some (l.val, slot.id)))
  IsLiveBallot-of_valid (done l) = (b, same, enough, inl checks)
  IsLiveBallot-of_valid panic = checks
  IsLiveBallot-of_valid diverge = checks

  IsLiveBallot-of_search :
      (o : Outcome (Bool × List ℕ))
      → IsLiveBallot Ignored Checks g msg (
          o >>= λ r.
          if r.0
          then (first_valid slot.learns r.1 >>= λ l. done (slot, some (l.val, slot.id)))
          else done (slot, none))
  IsLiveBallot-of_search (done (true, js)) = IsLiveBallot-of_valid (first_valid slot.learns js)
  IsLiveBallot-of_search (done (false, js)) = (b, inr (inl checks))
  IsLiveBallot-of_search panic = checks
  IsLiveBallot-of_search diverge = checks

-- The search for a valid quorum, when it comes to it.
abbrev search : GrpMgr → LearnerLrSlot → Outcome (LearnerLrSlot × Option (Value × ℕ))
search g slot =
    extract_vq (λ (l : Learn). l.id) (λ l. l.epoch_vector) slot.learns (quorum g) >>= λ r.
    if r.0
    then (first_valid slot.learns r.1 >>= λ l. done (slot, some (l.val, slot.id)))
    else done (slot, none)

check_learns_lr-search :
    (g : GrpMgr) (slot : LearnerLrSlot) (msg : Learn)
    → ltb slot.votes (quorum g) ≡ false
    → slot.check_vq ≡ true
    → check_learns_lr g slot msg ≡ search g slot
unfolding check_learns_lr
check_learns_lr-search g slot msg many vq =
    rw (many, check_learns_lr)
      (ap (λ t. if not t then done (slot, some (msg.val, slot.id)) else search g slot) vq)

check_learns_lr-trusts :
    (g : GrpMgr) (slot : LearnerLrSlot) (msg : Learn)
    → ltb slot.votes (quorum g) ≡ false
    → slot.check_vq ≡ false
    → check_learns_lr g slot msg ≡ done (slot, some (msg.val, slot.id))
unfolding check_learns_lr
check_learns_lr-trusts g slot msg many vq =
    rw (many, check_learns_lr)
      (ap (λ t. if not t then done (slot, some (msg.val, slot.id)) else search g slot) vq)

check_learns_lr-IsLiveBallot :
    (Ignored Checks : Type 0) (g : GrpMgr) (slot : LearnerLrSlot) (msg : Learn)
    → LiveBallot slot
    → slot.rnd ≡ msg.rnd
    → (slot.check_vq ≡ true → Checks)
    → IsLiveBallot Ignored Checks g msg (check_learns_lr g slot msg)
unfolding check_learns_lr
check_learns_lr-IsLiveBallot Ignored Checks g slot msg b same checks =
    elim (Bool-cases (ltb slot.votes (quorum g))) [
      | inl few ↦ rw (few, check_learns_lr) (b, inr (inr (ground (arith, b.counted))))
      | inr many ↦
          let enough : quorum g ≤ length slot.learns = ground (arith, b.counted) in
          elim (Bool-cases slot.check_vq) [
            | inr trusts ↦
                subst (IsLiveBallot Ignored Checks g msg)
                  (sym (check_learns_lr-trusts g slot msg many trusts)) (b, same, enough, inr refl)
            | inl vq ↦
                subst (IsLiveBallot Ignored Checks g msg)
                  (sym (check_learns_lr-search g slot msg many vq))
                  (IsLiveBallot-of_search Ignored Checks g slot msg b same enough (checks vq)
                    (extract_vq (λ (l : Learn). l.id) (λ l. l.epoch_vector) slot.learns (quorum g)))
          ]
    ]

count_learn_lr-IsLiveBallot :
    (Ignored Checks : Type 0) (g : GrpMgr) (slot : LearnerLrSlot) (msg : Learn)
    → length slot.learns + 1 < uint_mod
    → LiveBallot slot
    → slot.rnd ≡ msg.rnd
    → (slot.voted msg.id ≡ true → Ignored)
    → (slot.check_vq ≡ true → Checks)
    → IsLiveBallot Ignored Checks g msg (count_learn_lr g slot msg)
unfolding count_learn_lr
count_learn_lr-IsLiveBallot Ignored Checks g slot msg room b same ignored checks =
    elim (Bool-cases (slot.voted msg.id)) [
      | inl there ↦ rw (there, count_learn_lr) (b, inl (ignored there))
      | inr new ↦
          rw (new, count_learn_lr)
            (check_learns_lr-IsLiveBallot Ignored Checks g (counted_lr slot msg) msg
              (counted_lr-LiveBallot slot msg room new same b) same checks)
    ]

-- Why a slot ignores a learn: it is of a lower round, or its sender's learn is there.
abbrev pub IgnoresLr : LearnerLrSlot → Learn → Type 0
IgnoresLr slot msg = RoundLt msg.rnd slot.rnd ⊎ ((slot.rnd ≡ msg.rnd) × (slot.voted msg.id ≡ true))

-- Under live replacement, a learn to a slot that is not learned keeps the slot's ballot in order:
-- the learns are of different senders, all of the slot's round, as many as the votes (while they
-- are fewer than 2 ^ 64 - 1). It returns a value only with a quorum of learns in its round. While
-- no learn's epoch vector differed from the group's, it always returns, the value is the learn's
-- own, and there is none only if there is no quorum yet, or the learn is of a lower round or
-- repeats its sender's.
pub learn_slot_lr-IsLiveBallot :
    (g : GrpMgr) (slot : LearnerLrSlot) (msg : Learn)
    → length slot.learns + 1 < uint_mod
    → LiveBallot slot
    → IsLiveBallot
        (IgnoresLr slot msg)
        ((note_epochs g slot msg).check_vq ≡ true)
        g
        msg
        (learn_slot_lr g slot msg)
unfolding learn_slot_lr
learn_slot_lr-IsLiveBallot g slot msg room b =
    let noted : LiveBallot (note_epochs g slot msg) = record {
      counted = b.counted;
      own = b.own;
      apart = b.apart;
    } in
    elim (Ordering-cases (compare_round slot.rnd msg.rnd)) [
      | inl lower ↦
          rw (lower, learn_slot_lr)
            (count_learn_lr-IsLiveBallot (IgnoresLr slot msg)
              ((note_epochs g slot msg).check_vq ≡ true) g
              (reset_slot_lr (note_epochs g slot msg) msg) msg (omega arith)
              (record { counted = refl; own = tt; apart = tt }) refl (λ e. absurd (nobody_voted e))
              (λ e. e))
      | inr (inl same) ↦
          let eq = eq_of_compare_round slot.rnd msg.rnd same in
          rw (same, learn_slot_lr)
            (count_learn_lr-IsLiveBallot (IgnoresLr slot msg)
              ((note_epochs g slot msg).check_vq ≡ true) g (note_epochs g slot msg) msg room noted
              eq (λ e. inr (eq, e)) (λ e. e))
      | inr (inr higher) ↦
          rw (higher, learn_slot_lr)
            (noted, inl (inl (compare_round-flip slot.rnd msg.rnd ∙ ap flip higher)))
    ]
  where
    nobody_voted : false ≡ true → ⊥
    nobody_voted e = cc
