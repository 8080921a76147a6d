-- ===== src/Batchpaxos/Senders.antt =====
-- A commit has a quorum of learns of different senders (`LearnQuorumExists` of
-- batchpaxos/quorum.go).
use goxos.Base.{
  ℕ, ◌<◌, ◌≡◌, refl, ap, subst, ◌∙◌, Bool, true, false, not, ◌&&◌, ◌||◌, List, [], ◌∷◌, ◌==◌,
  ==_iff, if◌then◌else◌, arith, Bool-cases, inl, inr, length, ltb_ℤ, pos, to_int,
}
use goxos.Grp.Id.{GrpId, id_eq}
use goxos.Liveness.IdSet.{has, put, has-put}
use goxos.Batchpaxos.Quorum.{BatchLearnMsg, BatchQuorumChecker, get_state, add_learn, uniques}
use goxos.Batchpaxos.Acceptor.{BatchAcceptor, handle_learn_msg}
use goxos.Batchpaxos.Commits.{
  commits, as_number, is_quorum, learn_quorum-new, learn_quorum-none, quorum,
  commits-handle_learn_msg,
}

-- No id twice.
abbrev pub Distinct : List GrpId → Type 0
Distinct [] = Unit
Distinct (id ∷ ids) = (has ids id ≡ false) × Distinct ids

-- Whether one of the learns is of this sender.
unfoldable pub is_sender : List BatchLearnMsg → GrpId → Bool
is_sender [] j = false
is_sender (msg ∷ msgs) j = id_eq msg.id j || is_sender msgs j

put-Distinct : (ids : List GrpId) (id : GrpId) → Distinct ids → Distinct (put ids id)
unfolding put
put-Distinct ids id d = elim (Bool-cases (has ids id)) [ inl h ↦ rw (h) d | inr h ↦ rw (h) (h, d) ]

uniques-Distinct :
    (msgs : List BatchLearnMsg) (seen : List GrpId) → Distinct seen → Distinct (uniques msgs seen)
unfolding uniques
uniques-Distinct [] seen d = d
uniques-Distinct (msg ∷ msgs) seen d =
    uniques-Distinct msgs (put seen msg.id) (put-Distinct seen msg.id d)

or_swap : (a b c : Bool) → ((a || b) || c) ≡ (b || (a || c))
or_swap true true c = refl
or_swap true false c = refl
or_swap false b c = refl

has-uniques :
    (msgs : List BatchLearnMsg) (seen : List GrpId) (j : GrpId)
    → has (uniques msgs seen) j ≡ (has seen j || is_sender msgs j)
unfolding uniques is_sender
has-uniques [] seen j = or_false (has seen j)
  where
    or_false : (a : Bool) → a ≡ (a || false)
    or_false true = refl
    or_false false = refl
has-uniques (msg ∷ msgs) seen j =
    has-uniques msgs (put seen msg.id) j
    ∙ ap (λ b. b || is_sender msgs j) (has-put seen msg.id j)
    ∙ or_swap (id_eq msg.id j) (has seen j) (is_sender msgs j)

-- The senders of the learns, each once, and that they are as many as a quorum.
pub record HasQuorum (bqc : BatchQuorumChecker) (learns : List BatchLearnMsg) : Type 0 where
  pub senders : List GrpId
  pub distinct : Distinct senders
  pub who : (j : GrpId) → has senders j ≡ is_sender learns j
  pub enough : ltb_ℤ (pos (length senders)) (to_int bqc.quorum_size) ≡ false

is_quorum-HasQuorum :
    (bqc : BatchQuorumChecker) (c : ℕ)
    → is_quorum bqc c ≡ true
    → HasQuorum bqc (get_state bqc c).learns
unfolding has
is_quorum-HasQuorum bqc c h = record {
  senders = uniques (get_state bqc c).learns [];
  distinct = uniques-Distinct (get_state bqc c).learns [] tt;
  who = λ j. has-uniques (get_state bqc c).learns [] j;
  enough =
      not_true (ltb_ℤ (pos (length (uniques (get_state bqc c).learns []))) (to_int bqc.quorum_size))
        h;
}
  where
    not_true : (b : Bool) → not b ≡ true → b ≡ false
    not_true true h = ground arith
    not_true false h = refl

-- A commit of a batch answers a learn of the batch, and then the learns of the batch, with this one,
-- have as many different senders as a quorum.
pub commit-HasQuorum :
    (ba : BatchAcceptor) (msg : BatchLearnMsg) (b : ℕ)
    → 0 < commits b (handle_learn_msg ba msg).1
    → (msg.batch_id ≡ b)
      × HasQuorum
          (add_learn ba.batchqc msg)
          (get_state (add_learn ba.batchqc msg) msg.batch_id).learns
commit-HasQuorum ba msg b h =
    elim (Bool-cases
      (is_quorum bqc msg.batch_id && not (get_state bqc msg.batch_id).learns_notified)) [
        | inl new ↦ (
          same (msg.batch_id == b) refl
              (counts true (ap (λ r. r.1) (learn_quorum-new bqc msg.batch_id new))),
          is_quorum-HasQuorum bqc msg.batch_id (
              left (is_quorum bqc msg.batch_id) (not (get_state bqc msg.batch_id).learns_notified)
                new),
        )
        | inr none ↦ absurd (
            let never = counts false (ap (λ r. r.1) (learn_quorum-none bqc msg.batch_id none)) in
            omega (arith, never))
      ]
  where
    bqc : BatchQuorumChecker
    bqc = add_learn ba.batchqc msg

    left : (p q : Bool) → (p && q) ≡ true → p ≡ true
    left true q h = refl
    left false q h = ground arith

    counts :
        (q : Bool) → (quorum ba msg).1 ≡ q → 0 < (if q then as_number (msg.batch_id == b) else 0)
    counts q e =
        subst (λ q. 0 < (if q then as_number (msg.batch_id == b) else 0)) e
          (subst (λ n. 0 < n) (commits-handle_learn_msg ba msg b) h)

    same :
        (e : Bool) → (msg.batch_id == b) ≡ e → 0 < as_number (msg.batch_id == b) → msg.batch_id ≡ b
    same true e count = (==_iff msg.batch_id b).0 e
    same false e count =
        absurd
          (let none : as_number (msg.batch_id == b) ≡ 0 = rw (e) refl in omega (arith, none, count))
