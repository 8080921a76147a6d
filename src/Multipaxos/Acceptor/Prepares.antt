-- ===== src/Multipaxos/Acceptor/Prepares.antt =====
-- The prepare handlers (`handlePrep`, `handlePrepAr` and `handlePrepLr` of multipaxos/acceptor.go),
-- through `handlePrepare`: when they answer, and what a promise tells the proposer.
use mathlib.Core.List.{Memᴰ}
use goxos.Base.{
  ◌∙◌, ℕ, ◌+◌, ◌-◌, ◌≡◌, ◌≢◌, ◌⊎◌, inl, inr, refl, sym, subst, Bool, true, false, none, some, List,
  [], ◌≤◌, ◌<◌, arith, ◌==◌, Bool-cases, uint_mod, All, All-append, All-mono, replicate,
  All-replicate, if◌then◌else◌, sub_uint,
}
use goxos.Base.Outcome.{done, panic}
use goxos.Grp.Id.{GrpId}
use goxos.Grp.NodeMap.{GrpMgr, epochs}
use goxos.Paxos.Round.{RoundLe, RoundLt, compare_round-flip}
use goxos.Paxos.Msg.{AcceptorSlot, new_acceptor_slot, Prepare, Promise}
use goxos.Paxos.Slots.{acceptor_slot_of}
use goxos.Multipaxos.Acceptor.{
  MultiAcceptor, Variant, live_replacement, async_reconfig, regular, has_voted, is_ahead,
  answer_prepare, handle_prepare,
}
use goxos.Multipaxos.Acceptor.Invariant.{SlotsValid}
use goxos.Multipaxos.Acceptor.Promises.{
  half_word, votes_from, scan_end, scan_end-ScanKeeps, promise_of, answer_prepare-cases,
  initial_acc_slots, Allocates, AnswerWays,
}
use goxos.Multipaxos.Acceptor.Reports.{mem-append_right, votes_from-mem, IsVote, votes_from-IsVote}

-- Why a prepare is refused.
abbrev pub PrepareRefused : Variant → MultiAcceptor → Prepare → Type 0
PrepareRefused v a msg =
    ((v ≡ async_reconfig) × (msg.id.epoch ≢ a.id.epoch)) ⊎ RoundLe msg.c_rnd a.slots.rnd

abbrev epoch_vector_of : Variant → GrpMgr → List ℕ
epoch_vector_of live_replacement g = epochs g
epoch_vector_of async_reconfig g = []
epoch_vector_of regular g = []

not-Refused :
    (v : Variant) (a : MultiAcceptor) (msg : Prepare)
    → ((v ≡ async_reconfig) → (msg.id.epoch ≡ a.id.epoch))
    → RoundLt a.slots.rnd msg.c_rnd
    → ¬ PrepareRefused v a msg
not-Refused v a msg same new (inl (e, other)) = other (same e)
not-Refused v a msg same new (inr old) = ground (arith, compare_round-flip a.slots.rnd msg.c_rnd)

-- What a prepare that is not refused comes to: a promise, or a panic of `make` where its slot is
-- too far ahead.
abbrev Answered : ℕ → Variant → GrpMgr → MultiAcceptor → Prepare → Type 0
Answered limit v g a msg =
    (Allocates limit msg.slot a.slots.max_seen
      × (handle_prepare limit v g a msg
          ≡ done (
            record a { slots = (scan_end a msg).slots },
            some (promise_of (epoch_vector_of v g) a msg, msg.id),
          )))
    ⊎ ((sub_uint msg.slot a.slots.max_seen < half_word)
        × (limit < sub_uint msg.slot a.slots.max_seen)
        × (handle_prepare limit v g a msg ≡ panic))

abbrev pub PrepareWays : ℕ → Variant → GrpMgr → MultiAcceptor → Prepare → Type 0
PrepareWays limit v g a msg =
    (PrepareRefused v a msg × (handle_prepare limit v g a msg ≡ done (a, none)))
    ⊎ ((¬ PrepareRefused v a msg) × RoundLt a.slots.rnd msg.c_rnd × Answered limit v g a msg)

-- Past the test of the epoch.
PrepareWays-of_answer :
    (limit : ℕ) (v : Variant) (g : GrpMgr) (a : MultiAcceptor) (msg : Prepare)
    → ((v ≡ async_reconfig) → (msg.id.epoch ≡ a.id.epoch))
    → handle_prepare limit v g a msg ≡ answer_prepare limit (epoch_vector_of v g) a msg
    → AnswerWays limit (epoch_vector_of v g) a msg
    → PrepareWays limit v g a msg
PrepareWays-of_answer limit v g a msg same run (inl (old, e)) = inl (inr old, run ∙ e)
PrepareWays-of_answer limit v g a msg same run (inr (new, inl (fits, e))) =
    inr (not-Refused v a msg same new, new, inl (fits, run ∙ e))
PrepareWays-of_answer limit v g a msg same run (inr (new, inr (ahead, big, e))) =
    inr (not-Refused v a msg same new, new, inr (ahead, big, run ∙ e))

pub prepare-cases :
    (limit : ℕ) (v : Variant) (g : GrpMgr) (a : MultiAcceptor) (msg : Prepare)
    → a.slots.max_seen + 1 < uint_mod
    → PrepareWays limit v g a msg
unfolding handle_prepare
prepare-cases limit live_replacement g a msg top =
    PrepareWays-of_answer limit live_replacement g a msg (λ e. cc) refl
      (answer_prepare-cases limit (epochs g) a msg top)
prepare-cases limit regular g a msg top =
    PrepareWays-of_answer limit regular g a msg (λ e. cc) refl
      (answer_prepare-cases limit [] a msg top)
prepare-cases limit async_reconfig g a msg top = elim (Bool-cases (msg.id.epoch == a.id.epoch)) [
  | inl same ↦
      PrepareWays-of_answer limit async_reconfig g a msg (λ e. ground arith) (ground arith)
        (answer_prepare-cases limit [] a msg top)
  | inr other ↦ inl (inl (refl, ground arith), ground arith)
]

-- What a prepare comes to. Refused, nothing changes and there is no reply. Else, if the runtime can
-- allocate the slice, the reply is a promise to the sender, of the prepare's round, which the
-- acceptor now has; slots read as before. If it cannot, the handler panics.
abbrev pub PrepareOutcome : ℕ → Variant → GrpMgr → MultiAcceptor → Prepare → Type 0
PrepareOutcome limit v g a msg =
    (PrepareRefused v a msg × (handle_prepare limit v g a msg ≡ done (a, none)))
    ⊎ ((¬ PrepareRefused v a msg)
        × Allocates limit msg.slot a.slots.max_seen
        × ((a' : MultiAcceptor) × (p : Promise) × (handle_prepare limit v g a msg
              ≡ done (a', some (p, msg.id)))
            × (p.id ≡ a.id)
            × (p.rnd ≡ msg.c_rnd)
            × (a'.slots.rnd ≡ msg.c_rnd)
            × ((k : ℕ) → acceptor_slot_of a'.slots.slots k ≡ acceptor_slot_of a.slots.slots k)))
    ⊎ ((¬ PrepareRefused v a msg)
        × (sub_uint msg.slot a.slots.max_seen < half_word)
        × (limit < sub_uint msg.slot a.slots.max_seen)
        × (handle_prepare limit v g a msg ≡ panic))

-- A prepare handler, on every variant of the acceptor, while its highest slot is below the last
-- word. It refuses a prepare from another epoch (under asynchronous reconfiguration) and one whose
-- round is no higher than its own, and then neither changes nor replies. Any other it answers, to
-- the sender, with a promise of the prepare's round, which is now its own round, and every slot
-- reads as before; but where the prepare's slot is further ahead of the highest slot than the
-- length of a slice that the runtime can allocate, it panics.
pub prepare_outcome :
    (limit : ℕ) (v : Variant) (g : GrpMgr) (a : MultiAcceptor) (msg : Prepare)
    → a.slots.max_seen + 1 < uint_mod
    → PrepareOutcome limit v g a msg
prepare_outcome limit v g a msg top = elim (prepare-cases limit v g a msg top) [
  | inl refused ↦ inl refused
  | inr (accepted, new, inr (ahead, big, e)) ↦ inr (inr (accepted, ahead, big, e))
  | inr (accepted, new, inl (fits, e)) ↦
      let same = scan_end-ScanKeeps a msg in
      inr (
        inl (
          accepted,
          fits,
          (
            record a { slots = (scan_end a msg).slots },
            promise_of (epoch_vector_of v g) a msg,
            e,
            refl,
            refl,
            same.same_rnd,
            same.reads,
          ),
        ))
]

-- The promise that an answer carries.
promise_of_answer :
    (limit : ℕ) (v : Variant) (g : GrpMgr) (a a' : MultiAcceptor) (msg : Prepare) (p : Promise)
    (dest : GrpId)
    → a.slots.max_seen + 1 < uint_mod
    → handle_prepare limit v g a msg ≡ done (a', some (p, dest))
    → (p ≡ promise_of (epoch_vector_of v g) a msg)
      × (a' ≡ record a { slots = (scan_end a msg).slots })
      × RoundLt a.slots.rnd msg.c_rnd
promise_of_answer limit v g a a' msg p dest top h = elim (prepare-cases limit v g a msg top) [
  | inl (_, e) ↦ cc
  | inr (_, new, inl (_, e)) ↦ (cc, cc, new)
  | inr (_, new, inr (_, _, e)) ↦ cc
]

-- A promise leaves out no vote: every stored slot at or above the prepare's slot that has a vote
-- is in it, as it is stored (in a valid slot map below the last word).
pub promise_complete :
    (limit : ℕ) (v : Variant) (g : GrpMgr) (a a' : MultiAcceptor) (msg : Prepare) (p : Promise)
    (dest : GrpId)
    → SlotsValid a.slots
    → a.slots.max_seen + 1 < uint_mod
    → handle_prepare limit v g a msg ≡ done (a', some (p, dest))
    → (k : ℕ) (s : AcceptorSlot) → msg.slot ≤ k
    → a.slots.slots k ≡ some s
    → has_voted s ≡ true
    → Memᴰ s p.acc_slots
promise_complete limit v g a a' msg p dest valid top h k s lo e voted =
    let n = (a.slots.max_seen + 1) - msg.slot in
    let (_, _, seen) = valid.stored k s e in
    let is_s : acceptor_slot_of a.slots.slots k ≡ s = ground arith in
    subst (λ q. Memᴰ s q.acc_slots) (sym (promise_of_answer limit v g a a' msg p dest top h).0)
      (mem-append_right (initial_acc_slots msg.slot a.slots.max_seen)
        (votes_from a.slots n msg.slot)
        (subst (λ t. Memᴰ t (votes_from a.slots n msg.slot)) is_s
          (votes_from-mem a.slots n msg.slot k lo (omega arith) (ground arith))))

All-either {ℓ κ} :
    {A : Type ℓ} (P : A → Type κ) (xs : List A) (b : Bool) → All P xs → All P (if b then xs else [])
All-either P xs true h = h
All-either P xs false h = tt

initial-All :
    (P : AcceptorSlot → Type 0) (slot max : ℕ)
    → P (new_acceptor_slot 0)
    → All P (initial_acc_slots slot max)
unfolding initial_acc_slots
initial-All P slot max h =
    let d = sub_uint slot max in
    All-either P (replicate d (new_acceptor_slot 0)) (is_ahead slot max)
      (All-replicate P d (new_acceptor_slot 0) h)

-- A promise invents no vote: what it carries is a zero slot, or a slot that is stored, with a vote,
-- at or above the prepare's slot (for a slot map below the last word).
pub promise_sound :
    (limit : ℕ) (v : Variant) (g : GrpMgr) (a a' : MultiAcceptor) (msg : Prepare) (p : Promise)
    (dest : GrpId)
    → a.slots.max_seen + 1 < uint_mod
    → handle_prepare limit v g a msg ≡ done (a', some (p, dest))
    → All (λ s. (s ≡ new_acceptor_slot 0) ⊎ IsVote a.slots msg.slot s) p.acc_slots
promise_sound limit v g a a' msg p dest top h =
    subst (λ q. All P q.acc_slots) (sym (promise_of_answer limit v g a a' msg p dest top h).0)
      (All-append P (initial_acc_slots msg.slot a.slots.max_seen) (votes_from a.slots n msg.slot)
        (initial-All P msg.slot a.slots.max_seen (inl refl))
        (All-mono (IsVote a.slots msg.slot) P (votes_from a.slots n msg.slot) (λ s q. inr q)
          (votes_from-IsVote a.slots n msg.slot msg.slot (omega arith))))
  where
    P : AcceptorSlot → Type 0
    P s = (s ≡ new_acceptor_slot 0) ⊎ IsVote a.slots msg.slot s

    n : ℕ
    n = (a.slots.max_seen + 1) - msg.slot
