-- ===== src/Reliablebc/Tally.antt =====
-- A learner decides a round exactly when it has more than two thirds of the commits for one hash
-- (`handleCommit` and `compareCommits` of reliablebc/relbclearner.go).
use goxos.Base.{
  ℕ, ◌+◌, ◌*◌, ◌%◌, ◌≤◌, ◌<◌, ◌≡◌, ◌≢◌, refl, sym, ap, subst, ◌∙◌, Bool, true, false, not, ◌&&◌,
  ◌||◌, List, [], ◌∷◌, ◌==◌, ==_iff, ltb, ltb→lt, if◌then◌else◌, arith, Bool-cases, inl, inr,
  length, uint_mod,
}
use goxos.Reliablebc.Learner.{
  Commit, LearnerRound, ValReq, has_commit, commit_count, any_above, compare_commits, start_round,
  add_commit, request_value, commit_to_started, commit_to_round,
}

-- No sender twice.
abbrev pub Distinct : List Commit → Type 0
Distinct [] = Unit
Distinct (c ∷ cs) = (has_commit cs c.id ≡ false) × Distinct cs

-- The commits are of different senders, and the round is decided exactly if more than `2 f` of them
-- have the same hash.
pub record IsTallied (f : ℕ) (r : LearnerRound) : Type 0 where
  pub distinct : Distinct r.commits
  pub quorum : r.decided ≡ true → (hash : ℕ) × (2 * f < commit_count hash r.commits)
  pub undecided : r.decided ≡ false → (hash : ℕ) → commit_count hash r.commits ≤ 2 * f

or_left : (a b : Bool) → (a || b) ≡ false → a ≡ false
or_left true b h = h
or_left false b h = refl

or_right : (a b : Bool) → (a || b) ≡ false → b ≡ false
or_right true b h = ground arith
or_right false b h = h

not_less : (a b : ℕ) → ltb a b ≡ false → b ≤ a
not_less a b h = ground arith

any_above-true :
    (bound : ℕ) (cs ds : List Commit)
    → any_above bound cs ds ≡ true
    → (hash : ℕ) × (bound < commit_count hash cs)
unfolding any_above
any_above-true bound cs [] h = ground arith
any_above-true bound cs (d ∷ ds) h = elim (Bool-cases (ltb bound (commit_count d.hash cs))) [
  | inl more ↦ (d.hash, ltb→lt bound (commit_count d.hash cs) more)
  | inr few ↦ any_above-true bound cs ds (sym (ap (λ b. b || any_above bound cs ds) few) ∙ h)
]

any_above-false :
    (bound : ℕ) (cs ds : List Commit) (hash : ℕ)
    → any_above bound cs ds ≡ false
    → 0 < commit_count hash ds
    → commit_count hash cs ≤ bound
unfolding any_above commit_count
any_above-false bound cs [] hash h some_commit = absurd (omega arith)
any_above-false bound cs (d ∷ ds) hash h some_commit = elim (Bool-cases (d.hash == hash)) [
  | inl same ↦
      subst (λ x. commit_count x cs ≤ bound) ((==_iff d.hash hash).0 same)
        (not_less bound (commit_count d.hash cs)
          (or_left (ltb bound (commit_count d.hash cs)) (any_above bound cs ds) h))
  | inr other ↦
      any_above-false bound cs ds hash
        (or_right (ltb bound (commit_count d.hash cs)) (any_above bound cs ds) h)
        (subst (λ b. 0 < (if b then commit_count hash ds + 1 else commit_count hash ds)) other
          some_commit)
]

compare_commits-IsTallied :
    (f : ℕ) (r : LearnerRound)
    → 2 * f < uint_mod
    → Distinct r.commits
    → r.decided ≡ compare_commits f r.commits
    → IsTallied f r
unfolding compare_commits
compare_commits-IsTallied f r word d e = record {
  distinct = d;
  quorum = λ h.
      subst (λ b. (hash : ℕ) × (b < commit_count hash r.commits)) bound
        (any_above-true ((2 * f) % uint_mod) r.commits r.commits (sym e ∙ h));
  undecided = λ h. λ hash.
      subst (λ b. commit_count hash r.commits ≤ b) bound
        (elim (Bool-cases (ltb 0 (commit_count hash r.commits))) [
          | inl more ↦
              any_above-false ((2 * f) % uint_mod) r.commits r.commits hash (sym e ∙ h)
                (ltb→lt 0 (commit_count hash r.commits) more)
          | inr empty ↦ nothing (not_less 0 (commit_count hash r.commits) empty)
        ]);
}
  where
    bound : (2 * f) % uint_mod ≡ 2 * f
    bound = omega arith

    nothing : {n b : ℕ} → n ≤ 0 → n ≤ b
    nothing h = omega arith

start_round-IsTallied :
    (f : ℕ) (r : LearnerRound) (rnd : ℕ) → IsTallied f r → IsTallied f (start_round r rnd)
unfolding start_round commit_count
start_round-IsTallied f r rnd t = elim (Bool-cases (length r.commits == 0)) [
  | inl empty ↦ rw (empty) (fresh)
  | inr more ↦ rw (more) t
]
  where
    fresh :
        IsTallied f (record r {
          rnd_id = rnd;
          commits = [];
          decided = false;
          snt_req = false;
          learned = false;
        })
    fresh = record {
      distinct = tt;
      quorum = λ h. ground arith;
      undecided = λ h. λ hash. omega arith;
    }

add_commit-IsTallied :
    (f : ℕ) (r : LearnerRound) (msg : Commit)
    → 2 * f < uint_mod
    → IsTallied f r
    → has_commit r.commits msg.id ≡ false
    → IsTallied f (add_commit f r msg)
unfolding add_commit
add_commit-IsTallied f r msg word t new =
    compare_commits-IsTallied f (add_commit f r msg) word (new, t.distinct) refl

-- What a commit does to a round.
pub record Committed (f : ℕ) (r : (LearnerRound × List ValReq) × Bool) : Type 0 where
  pub tallied : IsTallied f r.0.0
  pub requested : r.0.1 ≢ [] → r.0.0.decided ≡ true

request_value-Committed :
    (f : ℕ) (r : LearnerRound) (rnd : ℕ) → IsTallied f r → Committed f (request_value r rnd)
unfolding request_value
request_value-Committed f r rnd t = elim (Bool-cases (r.decided && not r.snt_req)) [
  | inl h ↦ rw (h) record {
    tallied = record { distinct = t.distinct; quorum = t.quorum; undecided = t.undecided };
    requested = λ _. left r.decided (not r.snt_req) h;
  }
  | inr h ↦ rw (h) record { tallied = t; requested = λ none. absurd (none refl) }
]
  where
    left : (a b : Bool) → (a && b) ≡ true → a ≡ true
    left true b h = refl
    left false b h = h

unchanged-Committed :
    (f : ℕ) (r : LearnerRound) (b : Bool) → IsTallied f r → Committed f ((r, []), b)
unchanged-Committed f r b t = record { tallied = t; requested = λ none. absurd (none refl) }

-- What the handler does with a round that is not decided.
abbrev undecided_round : ℕ → LearnerRound → Commit → (LearnerRound × List ValReq) × Bool
undecided_round f r msg =
    if has_commit r.commits msg.id
    then ((r, []), false)
    else request_value (add_commit f r msg) msg.rnd

module _ {A : Type 0} (P : A → Type 0) (b : Bool) (x y : A) where
  if_true : b ≡ true → P x → P (if b then x else y)
  if_true h p = subst (λ c. P (if c then x else y)) (sym h) p

  if_false : b ≡ false → P y → P (if b then x else y)
  if_false h p = subst (λ c. P (if c then x else y)) (sym h) p

commit_to_started-Committed :
    (f : ℕ) (r : LearnerRound) (msg : Commit)
    → 2 * f < uint_mod
    → IsTallied f r
    → Committed f (commit_to_started f r msg)
unfolding commit_to_started
commit_to_started-Committed f r msg word t = elim (Bool-cases r.decided) [
  | inl h ↦
      if_true (Committed f) r.decided ((r, []), false) (undecided_round f r msg) h
        (unchanged-Committed f r false t)
  | inr h ↦
      if_false (Committed f) r.decided ((r, []), false) (undecided_round f r msg) h
        (elim (Bool-cases (has_commit r.commits msg.id)) [
          | inl known ↦ rw (known) (unchanged-Committed f r false t)
          | inr new ↦ rw (new) (
              request_value-Committed f (add_commit f r msg) msg.rnd
                (add_commit-IsTallied f r msg word t new))
        ])
]

-- A commit keeps the tally of a round in order (while twice the number of faulty replicas fits the
-- word), and the value is requested only of a round that is decided.
pub commit_to_round-Committed :
    (f : ℕ) (old : LearnerRound) (msg : Commit)
    → 2 * f < uint_mod
    → IsTallied f old
    → Committed f (commit_to_round f old msg)
unfolding commit_to_round
commit_to_round-Committed f old msg word t =
    commit_to_started-Committed f (start_round old msg.rnd) msg word
      (start_round-IsTallied f old msg.rnd t)
