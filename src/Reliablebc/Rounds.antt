-- ===== src/Reliablebc/Rounds.antt =====
-- The rounds of a learner of reliable broadcast stay in order, and its handler of commits panics on
-- no round within reach (reliablebc/relbclearner.go, reliablebc/lstorage.go).
use goxos.Base.{
  ℕ, zero, suc, ◌+◌, ◌*◌, ◌/◌, ◌≤◌, ◌<◌, ◌≡◌, ◌≢◌, refl, ap, subst, ◌∙◌, Bool, true, false, not,
  some, List, [], ◌∷◌, arith, length, length-set, get_elem?, get_elem?-lt, get_elem?-set_self, set,
  replicate, ltb, ltb→lt, if◌then◌else◌, Bool-cases, inl, inr, uint_mod, add_uint, sub_uint, All,
  All-append, All-replicate,
}
use goxos.Base.Outcome.{done, ◌>>=◌, or_panic}
use goxos.Reliablebc.Auth.{Crypto, check_mac, hash_to_bytes}
use goxos.Reliablebc.Storage.{Storage, drop, re_slice, make_room, get, put, is_valid}
use goxos.Reliablebc.Learner.{
  Commit, LearnerRound, RelLearner, ValReq, new_round, commit_count, commit_to_round, handle_commit,
}
use goxos.Reliablebc.Tally.{IsTallied, commit_to_round-Committed}
use goxos.Reliablebc.Crash.{length-re_slice, min-re_slice, room_moved}

not_less : (a b : ℕ) → ltb a b ≡ false → b ≤ a
not_less a b h = ground arith

module _ {ℓ} {R : Type ℓ} (new : R) (P : R → Type 0) (P_new : P new) where
  All-drop : (i : ℕ) (rs : List R) → All P rs → All P (drop new i rs)
  unfolding drop
  All-drop zero rs h = h
  All-drop (suc i) [] h = h
  All-drop (suc i) (r ∷ rs) h = All-drop i rs h.1

  All-set : (rs : List R) (i : ℕ) (r : R) → P r → All P rs → All P (set rs i r)
  All-set [] i r p h = tt
  All-set (x ∷ rs) zero r p h = (p, h.1)
  All-set (x ∷ rs) (suc i) r p h = (h.0, All-set rs i r p h.1)

  All-get : (rs : List R) (i : ℕ) (r : R) → get_elem? rs i ≡ some r → All P rs → P r
  All-get [] i r e h = cc
  All-get (x ∷ rs) zero r e h = let same : x ≡ r = cc in subst P same h.0
  All-get (x ∷ rs) (suc i) r e h = All-get rs i r e h.1

  -- The slice has its length, and every round has the property.
  pub record Kept (s : Storage R) : Type 0 where
    pub full : length s.rounds ≡ s.length
    pub all : All P s.rounds

  re_slice-Kept : (s : Storage R) → Kept s → Kept (re_slice new s)
  unfolding re_slice
  re_slice-Kept s k = record {
    full = length-re_slice new s k.full;
    all =
        All-append P (drop new (s.length / 3) s.rounds) (replicate (s.length / 3) new)
          (All-drop (s.length / 3) s.rounds k.all) (All-replicate P (s.length / 3) new P_new);
  }

  -- What `Get` returns for a round within reach.
  record Got (s : Storage R) (rnd : ℕ) : Type ℓ where
    storage : Storage R
    round : R
    result : get new s rnd ≡ done (storage, round)
    kept : Kept storage
    held : P round
    inside : sub_uint rnd storage.min < length storage.rounds

  get-at :
      (s s' : Storage R) (rnd : ℕ)
      → make_room new s rnd ≡ s'
      → Kept s'
      → s'.min ≤ rnd
      → rnd < s'.min + s'.length
      → s'.min + s'.length < uint_mod
      → Got s rnd
  unfolding get
  get-at s s' rnd room k low high word =
      let inside : sub_uint rnd s'.min < length s'.rounds = omega (arith, k.full) in
      let (r, at) = get_elem?-lt s'.rounds (sub_uint rnd s'.min) inside in
      record {
        storage = s';
        round = r;
        result =
            ap (λ x. or_panic (get_elem? x.rounds (sub_uint rnd x.min)) >>= λ r. done (x, r)) room
            ∙ ap (λ o. or_panic o >>= λ r. done (s', r)) at;
        kept = k;
        held = All-get s'.rounds (sub_uint rnd s'.min) r at k.all;
        inside = inside;
      }

  kept_length : (s : Storage R) → (re_slice new s).length ≡ s.length
  unfolding re_slice
  kept_length s = refl

  room_kept :
      (s : Storage R) (rnd : ℕ) → ltb rnd (add_uint s.min s.length) ≡ true → make_room new s rnd ≡ s
  unfolding make_room
  room_kept s rnd h = ap (λ b. if b then s else re_slice new s) h

  get-Got :
      (s : Storage R) (rnd : ℕ)
      → Kept s
      → s.min ≤ rnd
      → rnd < s.min + s.length + s.length / 3
      → s.min + s.length + s.length / 3 < uint_mod
      → Got s rnd
  get-Got s rnd k low high word =
      let small : add_uint s.min s.length ≡ s.min + s.length = omega arith in
      elim (Bool-cases (ltb rnd (add_uint s.min s.length))) [
        | inl within ↦
            let near = ltb→lt rnd (add_uint s.min s.length) within in
            get-at s s rnd (room_kept s rnd within) k low (omega (arith, small, near)) (omega arith)
        | inr past ↦
            let far = not_less rnd (add_uint s.min s.length) past in
            let min' = min-re_slice new s (omega arith) in
            let length' = kept_length s in
            get-at s (re_slice new s) rnd (room_moved new s rnd past) (re_slice-Kept s k)
              (omega (arith, small, far, min')) (omega (arith, min', length'))
              (omega (arith, min', length'))
      ]

  put-Kept : (s : Storage R) (rnd : ℕ) (r : R) → P r → Kept s → Kept (put new s rnd r)
  unfolding put
  put-Kept s rnd r p k = record {
    full = length-set s.rounds (sub_uint rnd s.min) r ∙ k.full;
    all = All-set s.rounds (sub_uint rnd s.min) r p k.all;
  }

pub new_round-IsTallied : (f : ℕ) → IsTallied f new_round
unfolding commit_count
new_round-IsTallied f = record {
  distinct = tt;
  quorum = λ h. ground arith;
  undecided = λ h. λ hash. omega arith;
}

abbrev pub InOrder : ℕ → Storage LearnerRound → Type 0
InOrder f s = Kept new_round (IsTallied f) (new_round-IsTallied f) s

-- What the handler of commits ends in: the rounds are in order, and if the value of a round was asked
-- for, the commit's round is decided by a quorum for one hash.
pub record Handled (l : RelLearner) (msg : Commit) (r : (RelLearner × List ValReq) × Bool)
    : Type 0 where
  pub in_order : InOrder l.n_faulty r.0.0.rounds
  pub decided :
      r.0.1 ≢ []
      → (round : LearnerRound) × ((get_elem? r.0.0.rounds.rounds (sub_uint msg.rnd r.0.0.rounds.min)
            ≡ some round)
          × (IsTallied l.n_faulty round × (round.decided ≡ true)))

handle-got :
    (c : Crypto) (l : RelLearner) (msg : Commit)
    → check_mac c l.auth_mgr msg.id msg.hmac (hash_to_bytes msg.hash) msg.rnd ≡ true
    → is_valid new_round l.rounds msg.rnd ≡ true
    → (s : Storage LearnerRound) (round : LearnerRound)
    → get new_round l.rounds msg.rnd ≡ done (s, round)
    → handle_commit c l msg
      ≡ done (
        (
          record l { rounds = put new_round s msg.rnd (commit_to_round l.n_faulty round msg).0.0 },
          (commit_to_round l.n_faulty round msg).0.1,
        ),
        (commit_to_round l.n_faulty round msg).1,
      )
unfolding handle_commit
handle-got c l msg checked valid s round e = rw (checked, handle_commit, valid, e) refl

-- A commit for a round within reach of the storage, which is a third of its length past its end, ends
-- without a panic; the rounds of the learner stay in order; and the value of a round is asked for
-- only if the round is decided.
pub handle_commit-Handled :
    (c : Crypto) (l : RelLearner) (msg : Commit)
    → 2 * l.n_faulty < uint_mod
    → InOrder l.n_faulty l.rounds
    → msg.rnd < l.rounds.min + l.rounds.length + l.rounds.length / 3
    → l.rounds.min + l.rounds.length + l.rounds.length / 3 < uint_mod
    → (r : (RelLearner × List ValReq) × Bool) × ((handle_commit c l msg ≡ done r) × Handled l msg r)
unfolding handle_commit put is_valid
handle_commit-Handled c l msg faulty order reach word =
    elim (Bool-cases (check_mac c l.auth_mgr msg.id msg.hmac (hash_to_bytes msg.hash) msg.rnd)) [
      | inr wrong ↦ (((l, []), false), (rw (wrong, handle_commit) refl, dropped))
      | inl checked ↦ elim (Bool-cases (is_valid new_round l.rounds msg.rnd)) [
        | inr old ↦ (((l, []), false), (rw (checked, handle_commit, old) refl, dropped))
        | inl valid ↦
            let got =
              get-Got new_round (IsTallied l.n_faulty) (new_round-IsTallied l.n_faulty) l.rounds
                msg.rnd order (above l.rounds valid) reach word in
            let done_round = commit_to_round-Committed l.n_faulty got.round msg faulty got.held in
            (
              _,
              (
                handle-got c l msg checked valid got.storage got.round got.result,
                record {
                  in_order =
                      put-Kept new_round (IsTallied l.n_faulty) (new_round-IsTallied l.n_faulty)
                        got.storage msg.rnd (commit_to_round l.n_faulty got.round msg).0.0
                        done_round.tallied got.kept;
                  decided = λ asked. (
                    (commit_to_round l.n_faulty got.round msg).0.0,
                    (
                      put-at got.storage (commit_to_round l.n_faulty got.round msg).0.0 got.inside,
                      (done_round.tallied, done_round.requested asked),
                    ),
                  );
                },
              ),
            )
      ]
    ]
  where
    not_true : (b : Bool) → not b ≡ true → b ≡ false
    not_true true h = ground arith
    not_true false h = refl

    dropped : Handled l msg ((l, []), false)
    dropped = record { in_order = order; decided = λ asked. absurd (asked refl) }

    put-at :
        (s : Storage LearnerRound) (round : LearnerRound)
        → sub_uint msg.rnd s.min < length s.rounds
        → get_elem?
            (put new_round s msg.rnd round).rounds
            (sub_uint msg.rnd (put new_round s msg.rnd round).min)
          ≡ some round
    put-at s round h = get_elem?-set_self s.rounds (sub_uint msg.rnd s.min) round h

    above : (s : Storage LearnerRound) → is_valid new_round s msg.rnd ≡ true → s.min ≤ msg.rnd
    above s valid = not_less msg.rnd s.min (not_true (ltb msg.rnd s.min) valid)
