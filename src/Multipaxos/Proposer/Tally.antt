-- ===== src/Multipaxos/Proposer/Tally.antt =====
-- The quorum of promises behind phase one, without live replacement (`handleProm` of
-- multipaxos/proposer.go).
use goxos.Base.{
  get_elem?-replicate, ℕ, ◌+◌, ◌≡◌, ◌≢◌, ◌⊎◌, inl, inr, refl, sym, subst, ◌∙◌, ap, Option, none,
  some, ◌≤◌, ◌<◌, arith, Bool, true, false, not, ◌||◌, leb, Bool-cases, Ordering, index, ℤ, pos,
  negsuc, length, length-set, length-replicate, get_elem?, set, replicate, uint_mod, inc,
}
use goxos.Base.Stored.{
  voters, voters-le-length, voters-set, voters-replicate, get-set, get-replicate,
}
use goxos.Base.Outcome.{Outcome, done, panic, diverge}
use goxos.Grp.NodeMap.{GrpMgr, quorum, nr_of_nodes}
use goxos.Paxos.Round.{compare_round, is_eq, compare_round_refl, eq_of_compare_round}
use goxos.Paxos.Msg.{Promise}
use goxos.Multipaxos.Proposer.{
  MultiProposer, handle_prom, start_phase_one, update_state_pre_phase_one, reset_phase_one_data,
  reset_sent_counters_in_alpha_window,
}

-- The promises of the current phase one: each stands under its sender's id and is of the
-- proposer's round, and they are as many as the count.
pub record Tally (p : MultiProposer) : Type 0 where
  pub counted : p.phase_one_count ≡ voters p.phase_one_promises
  pub room : length p.phase_one_promises + 1 < uint_mod
  pub own :
      (i : ℕ) (m : Promise)
      → get_elem? p.phase_one_promises i ≡ some (some m)
      → (m.id.paxos_id ≡ pos i) × (p.crnd ≡ m.rnd)

-- Why a promise is ignored: phase one is done, it is of another round, or its sender's is there.
abbrev pub Ignores : MultiProposer → Promise → Type 0
Ignores p msg =
    (p.phase_one_done ≡ true)
    ⊎ (p.crnd ≢ msg.rnd)
    ⊎ ((i : ℕ) × (m : Promise) × (msg.id.paxos_id ≡ pos i)
        × (get_elem? p.phase_one_promises i ≡ some (some m)))

-- What `handleProm` comes to.
abbrev pub IsTally : GrpMgr → MultiProposer → Promise → Outcome (MultiProposer × Bool) → Type 0
IsTally g p msg (done (q, true)) = Tally q × (quorum g ≤ voters q.phase_one_promises)
IsTally g p msg (done (q, false)) =
    Tally q × (((q ≡ p) × Ignores p msg) ⊎ (voters q.phase_one_promises < quorum g))
IsTally g p msg panic = index p.phase_one_promises msg.id.paxos_id ≡ none
IsTally g p msg diverge = ⊥

-- The proposer with the promise of replica `i`.
abbrev with_promise : MultiProposer → ℕ → Promise → MultiProposer
with_promise p i msg = record p {
  phase_one_promises = set p.phase_one_promises i (some msg);
  phase_one_count = inc p.phase_one_count;
}

with_promise-Tally :
    (p : MultiProposer) (i : ℕ) (msg : Promise)
    → msg.id.paxos_id ≡ pos i
    → get_elem? p.phase_one_promises i ≡ some none
    → p.crnd ≡ msg.rnd
    → Tally p
    → Tally (with_promise p i msg)
with_promise-Tally p i msg id free same t = record {
  counted = omega (
    arith,
    t.counted,
    t.room,
    voters-set p.phase_one_promises i msg free,
    voters-le-length p.phase_one_promises,
  );
  room = omega (arith, t.room, length-set p.phase_one_promises i (some msg));
  own = λ j m h. elim (get-set p.phase_one_promises i j msg m h) [
    | inl (e, f) ↦ (ap (λ t. t.id.paxos_id) (sym f) ∙ id ∙ ap pos e, same ∙ ap (λ t. t.rnd) f)
    | inr old ↦ t.own j m old
  ];
}

IsTally-of_counted :
    (g : GrpMgr) (p q : MultiProposer) (msg : Promise) (enough : Bool)
    → enough ≡ leb (quorum g) q.phase_one_count
    → Tally q
    → IsTally g p msg (done (q, enough))
IsTally-of_counted g p q msg true e t = (t, ground (arith, t.counted))
IsTally-of_counted g p q msg false e t = (t, inr (ground (arith, t.counted)))

module _ (g : GrpMgr) (p : MultiProposer) (msg : Promise) where
  handle_prom-closed :
      p.phase_one_done || not (is_eq (compare_round p.crnd msg.rnd)) ≡ true
      → handle_prom g p msg ≡ done (p, false)
  unfolding handle_prom
  handle_prom-closed e = rw (e, handle_prom) refl

  handle_prom-outside :
      p.phase_one_done || not (is_eq (compare_round p.crnd msg.rnd)) ≡ false
      → index p.phase_one_promises msg.id.paxos_id ≡ none
      → handle_prom g p msg ≡ panic
  unfolding handle_prom
  handle_prom-outside live e = ground arith

  handle_prom-taken :
      (i : ℕ) (m : Promise)
      → p.phase_one_done || not (is_eq (compare_round p.crnd msg.rnd)) ≡ false
      → msg.id.paxos_id ≡ pos i
      → get_elem? p.phase_one_promises i ≡ some (some m)
      → handle_prom g p msg ≡ done (p, false)
  unfolding handle_prom
  handle_prom-taken i m live id e = ground arith

  handle_prom-free :
      (i : ℕ)
      → p.phase_one_done || not (is_eq (compare_round p.crnd msg.rnd)) ≡ false
      → msg.id.paxos_id ≡ pos i
      → get_elem? p.phase_one_promises i ≡ some none
      → handle_prom g p msg ≡ done (with_promise p i msg, leb (quorum g) (inc p.phase_one_count))
  unfolding handle_prom
  handle_prom-free i live id e = ground arith

  same_round :
      p.phase_one_done || not (is_eq (compare_round p.crnd msg.rnd)) ≡ false → p.crnd ≡ msg.rnd
  same_round live = ground (arith, eq_of_compare_round p.crnd msg.rnd)

  other_round :
      p.phase_one_done || not (is_eq (compare_round p.crnd msg.rnd)) ≡ true → Ignores p msg
  other_round closed = elim (Bool-cases p.phase_one_done) [
    | inl over ↦ inl over
    | inr going ↦ inr (
        inl (λ same.
          let eq : compare_round p.crnd msg.rnd ≡ Ordering.eq =
            subst (λ r. compare_round p.crnd r ≡ Ordering.eq) same (compare_round_refl p.crnd) in
          ground arith))
  ]

  handle_prom_pos :
      (i : ℕ) (o : Option (Option Promise))
      → p.phase_one_done || not (is_eq (compare_round p.crnd msg.rnd)) ≡ false
      → msg.id.paxos_id ≡ pos i
      → get_elem? p.phase_one_promises i ≡ o
      → Tally p
      → IsTally g p msg (handle_prom g p msg)
  handle_prom_pos i none live id e t =
      subst (IsTally g p msg) (sym (handle_prom-outside live (ground arith))) (ground arith)
  handle_prom_pos i (some (some m)) live id e t =
      subst (IsTally g p msg) (sym (handle_prom-taken i m live id e))
        (t, inl (refl, inr (inr (i, m, id, e))))
  handle_prom_pos i (some none) live id e t =
      subst (IsTally g p msg) (sym (handle_prom-free i live id e)) (
        IsTally-of_counted g p (with_promise p i msg) msg (leb (quorum g) (inc p.phase_one_count))
          refl (with_promise-Tally p i msg id e (same_round live) t))

  handle_prom_at :
      (k : ℤ)
      → p.phase_one_done || not (is_eq (compare_round p.crnd msg.rnd)) ≡ false
      → msg.id.paxos_id ≡ k
      → Tally p
      → IsTally g p msg (handle_prom g p msg)
  handle_prom_at (pos i) live id t =
      handle_prom_pos i (get_elem? p.phase_one_promises i) live id refl t
  handle_prom_at (negsuc i) live id t =
      subst (IsTally g p msg) (sym (handle_prom-outside live (ground arith))) (ground arith)

-- A promise keeps the tally in order: at most one promise of each replica, all of the proposer's
-- round, as many as the count. A quorum is reported only when such promises are as many as a
-- quorum. If none is reported, they are fewer, or the promise was ignored and nothing changed:
-- phase one was done, the promise is of another round, or its sender's is there. It panics only if
-- the sender's id is out of the range of the promises.
pub handle_prom-IsTally :
    (g : GrpMgr) (p : MultiProposer) (msg : Promise)
    → Tally p
    → IsTally g p msg (handle_prom g p msg)
handle_prom-IsTally g p msg t =
    elim (Bool-cases (p.phase_one_done || not (is_eq (compare_round p.crnd msg.rnd)))) [
      | inl closed ↦
          subst (IsTally g p msg) (sym (handle_prom-closed g p msg closed))
            (t, inl (refl, other_round g p msg closed))
      | inr live ↦ handle_prom_at g p msg msg.id.paxos_id live refl t
    ]

Tally-of_empty :
    (p : MultiProposer) (n : ℕ)
    → p.phase_one_count ≡ 0
    → p.phase_one_promises ≡ replicate n none
    → n + 1 < uint_mod
    → Tally p
Tally-of_empty p n count promises few = record {
  counted = count ∙ sym (voters-replicate Promise n) ∙ ap voters (sym promises);
  room = omega (arith, ap length promises, length-replicate {A = Option Promise} n none);
  own = λ i m h. absurd (get-replicate n i m (ap (λ ps. get_elem? ps i) (sym promises) ∙ h));
}

-- No promise yet, and a place for each node of the group.
pub record EmptyTally (g : GrpMgr) (p : MultiProposer) : Type 0 where
  pub tally : Tally p
  pub no_count : p.phase_one_count ≡ 0
  pub places : length p.phase_one_promises ≡ nr_of_nodes g
  pub free : (i : ℕ) → i < nr_of_nodes g → get_elem? p.phase_one_promises i ≡ some none

EmptyTally-of :
    (g : GrpMgr) (p : MultiProposer)
    → p.phase_one_count ≡ 0
    → p.phase_one_promises ≡ replicate (nr_of_nodes g) none
    → nr_of_nodes g + 1 < uint_mod
    → EmptyTally g p
EmptyTally-of g p count promises few = record {
  tally = Tally-of_empty p (nr_of_nodes g) count promises few;
  no_count = count;
  places = ap length promises ∙ length-replicate {A = Option Promise} (nr_of_nodes g) none;
  free = λ i h.
      ap (λ ps. get_elem? ps i) promises
      ∙ get_elem?-replicate {A = Option Promise} (nr_of_nodes g) i none h;
}

-- A phase one starts with an empty tally, in a group of fewer than 2 ^ 64 - 1 nodes without live
-- replacement: whatever was there before, the count is 0, there is a place for each node, and no
-- place holds a promise; so the tally is in order.
pub start_phase_one-EmptyTally :
    (g : GrpMgr) (clear : Bool) (p : MultiProposer)
    → g.lr_enabled ≡ false
    → nr_of_nodes g + 1 < uint_mod
    → EmptyTally g (start_phase_one g clear p).0
unfolding start_phase_one update_state_pre_phase_one reset_phase_one_data
    reset_sent_counters_in_alpha_window
start_phase_one-EmptyTally g clear p no_lr few =
    EmptyTally-of g (start_phase_one g clear p).0 (rw no_lr refl) (rw no_lr refl) few
