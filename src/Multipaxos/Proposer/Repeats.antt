-- ===== src/Multipaxos/Proposer/Repeats.antt =====
-- A promise that arrives twice under live replacement (`handlePromLr` of multipaxos/proposer.go).
use goxos.Base.{
  ℕ, ◌≡◌, refl, subst, ◌∙◌, ap, true, false, not, Option, some, List, [], ◌∷◌, ◌++◌, arith, ltb,
  Ordering, inc,
}
use goxos.Base.Outcome.{done}
use goxos.Grp.NodeMap.{GrpMgr, quorum, epochs, epoch_slices_equal}
use goxos.Paxos.Round.{compare_round, compare_round_refl}
use goxos.Paxos.Msg.{Promise}
use goxos.Paxos.SlotsLr.{nobody}
use goxos.Multipaxos.Proposer.{
  MultiProposer, reset_phase_one_data, check_promises_lr, handle_prom_lr,
}

-- The proposer that has stored `n` promises, the list `ps`, since phase one began.
abbrev pub holding : ℕ → List (Option Promise) → MultiProposer → MultiProposer
holding n ps p = record p {
  phase_one_done = false;
  phase_one_count = n;
  phase_one_promises = ps;
  phase_one_vq_check = false;
  phase_one_recv_from = nobody;
}

module _ (g : GrpMgr) (p : MultiProposer) (msg : Promise) where
  -- One promise of the proposer's round, with the group's epochs, is stored and counted, whoever
  -- sent the promises before.
  counts :
      (n : ℕ) (ps : List (Option Promise))
      → p.crnd ≡ msg.rnd
      → epoch_slices_equal msg.epoch_vector (epochs g) ≡ true
      → handle_prom_lr g (holding n ps p) msg
        ≡ done (holding (inc n) (ps ++ some msg ∷ []) p, not (ltb (inc n) (quorum g)))
  unfolding handle_prom_lr check_promises_lr
  counts n ps same ep =
      let eq : compare_round p.crnd msg.rnd ≡ Ordering.eq =
        subst (λ r. compare_round p.crnd r ≡ Ordering.eq) same (compare_round_refl p.crnd) in
      ground arith

  starts_empty : g.lr_enabled ≡ true → reset_phase_one_data g p ≡ holding 0 [] p
  unfolding reset_phase_one_data
  starts_empty lr = rw lr refl

-- Under live replacement one replica's promise makes a quorum of two by itself if it arrives twice
-- in a phase one: in a group whose quorum is two, and whose epochs the promise has, the first
-- delivery after the reset gives no quorum, and the second one does.
pub one_promise_is_a_quorum :
    (g : GrpMgr) (p : MultiProposer) (msg : Promise)
    → g.lr_enabled ≡ true
    → quorum g ≡ 2
    → p.crnd ≡ msg.rnd
    → epoch_slices_equal msg.epoch_vector (epochs g) ≡ true
    → (q : MultiProposer) × (q' : MultiProposer) × (handle_prom_lr g (reset_phase_one_data g p) msg
        ≡ done (q, false))
      × (handle_prom_lr g q msg ≡ done (q', true))
      × (q'.phase_one_promises ≡ some msg ∷ some msg ∷ [])
one_promise_is_a_quorum g p msg lr two same ep = (
  holding 1 (some msg ∷ []) p,
  holding 2 (some msg ∷ some msg ∷ []) p,
  ap (λ s. handle_prom_lr g s msg) (starts_empty g p msg lr)
      ∙ counts g p msg 0 [] same ep
      ∙ ap (λ b. done (holding 1 (some msg ∷ []) p, not (ltb 1 b))) two,
  counts g p msg 1 (some msg ∷ []) same ep
      ∙ ap (λ b. done (holding 2 (some msg ∷ some msg ∷ []) p, not (ltb 2 b))) two,
  refl,
)
