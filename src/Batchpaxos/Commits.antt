-- ===== src/Batchpaxos/Commits.antt =====
-- The leader commits each batch at most once, with a quorum of learns (`handleLearnMsg` of
-- batchpaxos/batchacceptor.go, batchpaxos/quorum.go).
use goxos.Base.{
  ℕ, ◌+◌, ◌≤◌, ◌≡◌, refl, sym, ap, subst, ◌∙◌, Bool, true, false, not, ◌&&◌, List, [], ◌∷◌, ◌++◌,
  ◌==◌, ==_iff, if◌then◌else◌, arith, Bool-cases, inl, inr, ◌⊎◌, length, ltb_ℤ, pos, to_int,
}
use goxos.Batchpaxos.Quorum.{
  BatchLearnMsg, BatchState, BatchQuorumChecker, get_state, put_state, add_learn, uniques,
  learn_quorum_exists,
}
use goxos.Batchpaxos.Acceptor.{
  BatchAcceptor, Output, send_learn, send_reply, broadcast_commit, broadcast_update, decide,
  reset_timer, handle_learn_msg,
}
use goxos.Batchpaxos.Pending.{state_at-set_state}

-- Whether the quorum of a batch has been notified, as a number; and the commits of a batch.
abbrev pub as_number : Bool → ℕ
as_number b = if b then 1 else 0

abbrev pub notified : BatchQuorumChecker → ℕ → ℕ
notified bqc b = as_number (get_state bqc b).learns_notified

abbrev pub commits : ℕ → List Output → ℕ
commits b [] = 0
commits b (broadcast_commit msg ∷ os) = as_number (msg.batch_id == b) + commits b os
commits b (send_learn id msg ∷ os) = commits b os
commits b (send_reply id msg ∷ os) = commits b os
commits b (broadcast_update msg ∷ os) = commits b os
commits b (decide val ∷ os) = commits b os
commits b (reset_timer ∷ os) = commits b os

commits-append : (b : ℕ) (os ps : List Output) → commits b (os ++ ps) ≡ commits b os + commits b ps
commits-append b [] ps = omega arith
commits-append b (broadcast_commit msg ∷ os) ps = omega (arith, commits-append b os ps)
commits-append b (send_learn id msg ∷ os) ps = commits-append b os ps
commits-append b (send_reply id msg ∷ os) ps = commits-append b os ps
commits-append b (broadcast_update msg ∷ os) ps = commits-append b os ps
commits-append b (decide val ∷ os) ps = commits-append b os ps
commits-append b (reset_timer ∷ os) ps = commits-append b os ps

-- The handler for learn after learn.
unfoldable pub handle_learn_msgs : BatchAcceptor → List BatchLearnMsg → BatchAcceptor × List Output
unfolding handle_learn_msg
handle_learn_msgs ba [] = (ba, [])
handle_learn_msgs ba (msg ∷ msgs) =
    let (ba', outs) = handle_learn_msg ba msg in
    let (ba'', more) = handle_learn_msgs ba' msgs in (ba'', outs ++ more)

-- A state that is written with the same notification, or with a new one.
notified-put_state :
    (bqc : BatchQuorumChecker) (c b : ℕ) (new : BatchState)
    → notified (put_state bqc c new) b
      ≡ (if c == b then as_number new.learns_notified else notified bqc b)
notified-put_state bqc c b new =
    ap (λ s. as_number s.learns_notified) (state_at-set_state bqc.states c b new)
    ∙ inside (c == b) (get_state bqc b)
  where
    inside :
        (e : Bool) (old : BatchState)
        → as_number (if e then new else old).learns_notified
          ≡ (if e then as_number new.learns_notified else as_number old.learns_notified)
    inside true old = refl
    inside false old = refl

notified-add_learn :
    (bqc : BatchQuorumChecker) (msg : BatchLearnMsg) (b : ℕ)
    → notified (add_learn bqc msg) b ≡ notified bqc b
unfolding add_learn
notified-add_learn bqc msg b =
    notified-put_state bqc msg.batch_id b (record (get_state bqc msg.batch_id) {
      learns = (get_state bqc msg.batch_id).learns ++ (msg ∷ []);
    })
    ∙ same_state (Bool-cases (msg.batch_id == b))
  where
    same_state :
        (msg.batch_id == b ≡ true) ⊎ (msg.batch_id == b ≡ false)
        → (if msg.batch_id == b then notified bqc msg.batch_id else notified bqc b) ≡ notified bqc b
    same_state (inl same) = rw (same) (ap (notified bqc) ((==_iff msg.batch_id b).0 same))
    same_state (inr other) = rw (other) refl

-- The senders' ids are enough, and the quorum has not been notified.
abbrev pub is_quorum : BatchQuorumChecker → ℕ → Bool
is_quorum bqc c =
    not (ltb_ℤ (pos (length (uniques (get_state bqc c).learns []))) (to_int bqc.quorum_size))

abbrev pub notify : BatchQuorumChecker → ℕ → BatchQuorumChecker
notify bqc c = put_state bqc c (record (get_state bqc c) { learns_notified = true })

pub learn_quorum-new :
    (bqc : BatchQuorumChecker) (c : ℕ)
    → (is_quorum bqc c && not (get_state bqc c).learns_notified) ≡ true
    → learn_quorum_exists bqc c ≡ (notify bqc c, true)
unfolding learn_quorum_exists
learn_quorum-new bqc c h = rw (h, learn_quorum_exists) refl

pub learn_quorum-none :
    (bqc : BatchQuorumChecker) (c : ℕ)
    → (is_quorum bqc c && not (get_state bqc c).learns_notified) ≡ false
    → learn_quorum_exists bqc c ≡ (bqc, false)
unfolding learn_quorum_exists
learn_quorum-none bqc c h = rw (h, learn_quorum_exists) refl

-- A quorum is reported together with its notification.
notified-learn_quorum_exists :
    (bqc : BatchQuorumChecker) (c b : ℕ)
    → notified (learn_quorum_exists bqc c).0 b
      ≡ notified bqc b + (if (learn_quorum_exists bqc c).1 then as_number (c == b) else 0)
notified-learn_quorum_exists bqc c b =
    elim (Bool-cases (is_quorum bqc c && not (get_state bqc c).learns_notified)) [
      | inl new ↦ subst Told (sym (learn_quorum-new bqc c new)) (first new)
      | inr none ↦ subst Told (sym (learn_quorum-none bqc c none)) (omega arith)
    ]
  where
    first :
        (is_quorum bqc c && not (get_state bqc c).learns_notified) ≡ true
        → notified (notify bqc c) b ≡ notified bqc b + as_number (c == b)
    first new =
        notified-put_state bqc c b (record (get_state bqc c) { learns_notified = true })
        ∙ at_batch (Bool-cases (c == b))
      where
        unnotified : (q n : Bool) → (q && not n) ≡ true → as_number n ≡ 0
        unnotified true true h = ground arith
        unnotified true false h = refl
        unnotified false n h = ground arith

        at_batch :
            (c == b ≡ true) ⊎ (c == b ≡ false)
            → (if c == b then 1 else notified bqc b) ≡ notified bqc b + as_number (c == b)
        at_batch (inl same) =
            let e : c ≡ b = (==_iff c b).0 same in
            let zero_before : notified bqc b ≡ 0 =
              subst (λ x. notified bqc x ≡ 0) e
                (unnotified (is_quorum bqc c) (get_state bqc c).learns_notified new) in
            rw (same, zero_before) refl
        at_batch (inr other) = rw (other) (omega arith)

    Told : BatchQuorumChecker × Bool → Type 0
    Told r = notified r.0 b ≡ notified bqc b + (if r.1 then as_number (c == b) else 0)

module _ (ba : BatchAcceptor) (msg : BatchLearnMsg) where
  abbrev pub quorum : BatchQuorumChecker × Bool
  quorum = learn_quorum_exists (add_learn ba.batchqc msg) msg.batch_id

  handle_learn_msg-batchqc : (handle_learn_msg ba msg).0.batchqc ≡ quorum.0
  unfolding handle_learn_msg
  handle_learn_msg-batchqc = elim (Bool-cases quorum.1) [
    | inl h ↦ rw (h) refl
    | inr h ↦ rw (h) refl
  ]

  pub commits-handle_learn_msg :
      (b : ℕ)
      → commits b (handle_learn_msg ba msg).1
        ≡ (if quorum.1 then as_number (msg.batch_id == b) else 0)
  unfolding handle_learn_msg
  commits-handle_learn_msg b = elim (Bool-cases quorum.1) [
    | inl h ↦ rw (h) (omega arith)
    | inr h ↦ rw (h) refl
  ]

  notified-handle_learn_msg :
      (b : ℕ)
      → notified (handle_learn_msg ba msg).0.batchqc b
        ≡ notified ba.batchqc b + commits b (handle_learn_msg ba msg).1
  notified-handle_learn_msg b =
      ap (λ q. notified q b) handle_learn_msg-batchqc
      ∙ notified-learn_quorum_exists (add_learn ba.batchqc msg) msg.batch_id b
      ∙ ap (λ n. n + (if quorum.1 then as_number (msg.batch_id == b) else 0))
          (notified-add_learn ba.batchqc msg b)
      ∙ ap (λ n. notified ba.batchqc b + n) (sym (commits-handle_learn_msg b))

handle_learn_msgs-notified :
    (ba : BatchAcceptor) (msgs : List BatchLearnMsg) (b : ℕ)
    → notified (handle_learn_msgs ba msgs).0.batchqc b
      ≡ notified ba.batchqc b + commits b (handle_learn_msgs ba msgs).1
unfolding handle_learn_msgs
handle_learn_msgs-notified ba [] b = omega arith
handle_learn_msgs-notified ba (msg ∷ msgs) b =
    let first = notified-handle_learn_msg ba msg b in
    let rest = handle_learn_msgs-notified (handle_learn_msg ba msg).0 msgs b in
    let outs =
      commits-append b (handle_learn_msg ba msg).1
        (handle_learn_msgs (handle_learn_msg ba msg).0 msgs).1 in
    omega (arith, first, rest, outs)

-- Whatever learns a leader handles, it commits a batch at most once, and not at all if the batch's
-- quorum was notified before.
pub commits_once :
    (ba : BatchAcceptor) (msgs : List BatchLearnMsg) (b : ℕ)
    → notified ba.batchqc b + commits b (handle_learn_msgs ba msgs).1 ≤ 1
commits_once ba msgs b =
    subst (λ n. n ≤ 1) (handle_learn_msgs-notified ba msgs b)
      (as_number-le (get_state (handle_learn_msgs ba msgs).0.batchqc b).learns_notified)
  where
    as_number-le : (e : Bool) → as_number e ≤ 1
    as_number-le true = omega arith
    as_number-le false = omega arith
