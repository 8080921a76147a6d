-- ===== src/Reliablebc/Dropped.antt =====
-- What comes of a quorum that the own prepare completes (`sendPrepare` and `handlePrepare` of
-- reliablebc/relbcacceptor.go).
use goxos.Base.{
  ℕ, ◌*◌, ◌%◌, ◌≤◌, ◌≡◌, refl, sym, ap, ◌∙◌, Bool, true, false, ◌&&◌, ◌||◌, Option, none, some,
  List, [], ◌∷◌, ◌==◌, ltb, ltb→lt, lt→ltb, if◌then◌else◌, arith, Bool-cases, inl, inr, length,
  uint_mod,
}
use goxos.Reliablebc.Learner.{Commit}
use goxos.Reliablebc.Acceptor.{
  Prepare, AcceptorRound, RelAcceptor, start_acceptor_round, has_prepare, prepare_count,
  prepares_above, compare_prepares, missing_prepare, create_commit, prepare_to_started,
  prepare_to_round,
}

module _ {A : Type 0} (x y : A) where
  if_then : {b : Bool} → b ≡ true → (if b then x else y) ≡ x
  if_then h = ap (λ b. if b then x else y) h

  if_else : {b : Bool} → b ≡ false → (if b then x else y) ≡ y
  if_else h = ap (λ b. if b then x else y) h

-- More prepares do not end a quorum.
prepare_count-more :
    (hash : ℕ) (p : Prepare) (ps : List Prepare)
    → prepare_count hash ps ≤ prepare_count hash (p ∷ ps)
unfolding prepare_count
prepare_count-more hash p ps = ground arith

prepares_above-more :
    (bound : ℕ) (all ps : List Prepare) (p : Prepare)
    → prepares_above bound all ps ≡ true
    → prepares_above bound (p ∷ all) ps ≡ true
unfolding prepares_above
prepares_above-more bound all [] p h = h
prepares_above-more bound all (q ∷ ps) p h =
    elim (Bool-cases (ltb bound (prepare_count q.hash all))) [
      | inl more ↦
          let low = ltb→lt bound (prepare_count q.hash all) more in
          let up = prepare_count-more q.hash p all in
          ap (λ b. b || prepares_above bound (p ∷ all) ps)
            (lt→ltb bound (prepare_count q.hash (p ∷ all)) (omega (arith, low, up)))
      | inr few ↦ or_true (ltb bound (prepare_count q.hash (p ∷ all))) (
          prepares_above-more bound all ps p
            (sym (ap (λ b. b || prepares_above bound all ps) few) ∙ h))
    ]
  where
    or_true : (a : Bool) {b : Bool} → b ≡ true → (a || b) ≡ true
    or_true true e = refl
    or_true false e = e

compare_prepares-more :
    (f : ℕ) (ps : List Prepare) (p : Prepare)
    → compare_prepares f ps ≡ true
    → compare_prepares f (p ∷ ps) ≡ true
unfolding compare_prepares prepares_above
compare_prepares-more f ps p h =
    or_true (ltb ((2 * f) % uint_mod) (prepare_count p.hash (p ∷ ps)))
      (prepares_above-more ((2 * f) % uint_mod) ps ps p h)
  where
    or_true : (a : Bool) {b : Bool} → b ≡ true → (a || b) ≡ true
    or_true true e = refl
    or_true false e = e

abbrev with_prepare : AcceptorRound → Prepare → AcceptorRound
with_prepare r p = record r { prepares = p ∷ r.prepares }

-- A prepare of a new sender to a round that is started, has not sent its commit, and has a quorum
-- with this prepare.
prepare_to_round-quorum :
    (a : RelAcceptor) (r : AcceptorRound) (msg : Prepare)
    → start_acceptor_round r msg.rnd ≡ r
    → r.sent_commit ≡ false
    → has_prepare r.prepares msg.id ≡ false
    → compare_prepares a.n_faulty (msg ∷ r.prepares) ≡ true
    → prepare_to_round a r msg ≡ (
      with_prepare r msg,
      (
        missing_prepare a (with_prepare r msg) msg.rnd msg.hash,
        some (create_commit a msg.rnd msg.hash),
      ),
    )
unfolding prepare_to_round prepare_to_started
prepare_to_round-quorum a r msg started unsent new quorum =
    ap (λ x. prepare_to_started a x msg) started
    ∙ if_else same (if has_prepare r.prepares msg.id then same else counted) unsent
    ∙ if_else same counted new
    ∙ if_then made (with_prepare r msg, (none, none)) quorum
  where
    same : AcceptorRound × (Option Prepare × Option Commit)
    same = (r, (none, none))

    made : AcceptorRound × (Option Prepare × Option Commit)
    made = (
      with_prepare r msg,
      (
        missing_prepare a (with_prepare r msg) msg.rnd msg.hash,
        some (create_commit a msg.rnd msg.hash),
      ),
    )

    counted : AcceptorRound × (Option Prepare × Option Commit)
    counted =
        if compare_prepares a.n_faulty (msg ∷ r.prepares)
        then made
        else (with_prepare r msg, (none, none))

start_acceptor_round-started :
    (r : AcceptorRound) (p : Prepare) (ps : List Prepare) (rnd : ℕ)
    → r.prepares ≡ p ∷ ps
    → start_acceptor_round r rnd ≡ r
unfolding start_acceptor_round
start_acceptor_round-started r p ps rnd e =
    if_else
      (record r {
        rnd_id = rnd;
        prepares = [];
        commits = [];
        sent_prepare = false;
        sent_commit = false;
      })
      r some_prepare
  where
    some_prepare : (length r.prepares == 0 && length r.commits == 0) ≡ false
    some_prepare =
        ap (λ xs. length xs == 0 && length r.commits == 0) e
        ∙ ap (λ b. b && length r.commits == 0) not_zero
      where
        not_zero : (length (p ∷ ps) == 0) ≡ false
        not_zero = ground arith

-- A round with a prepare and without a sent commit, to which the own prepare is new and completes a
-- quorum: after the own prepare, the next prepare of a new sender makes a commit for the hash of that
-- prepare, whatever it is.
pub wrong_commit :
    (a : RelAcceptor) (r : AcceptorRound) (p : Prepare) (ps : List Prepare) (own bad : Prepare)
    → r.prepares ≡ p ∷ ps
    → r.sent_commit ≡ false
    → has_prepare r.prepares own.id ≡ false
    → compare_prepares a.n_faulty (own ∷ r.prepares) ≡ true
    → has_prepare (own ∷ r.prepares) bad.id ≡ false
    → (prepare_to_round a (prepare_to_round a r own).0 bad).1.1
      ≡ some (create_commit a bad.rnd bad.hash)
wrong_commit a r p ps own bad e unsent own_new quorum bad_new =
    ap (λ x. (prepare_to_round a x.0 bad).1.1)
      (prepare_to_round-quorum a r own (start_acceptor_round-started r p ps own.rnd e) unsent
        own_new quorum)
    ∙ ap (λ x. x.1.1)
        (prepare_to_round-quorum a (with_prepare r own) bad
          (start_acceptor_round-started (with_prepare r own) own r.prepares bad.rnd refl) unsent
          bad_new (compare_prepares-more a.n_faulty (own ∷ r.prepares) bad quorum))
