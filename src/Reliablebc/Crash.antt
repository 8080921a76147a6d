-- ===== src/Reliablebc/Crash.antt =====
-- What crashes a learner of reliable broadcast (reliablebc/relbclearner.go, reliablebc/lstorage.go).
use goxos.Base.{
  ℕ, zero, suc, ◌+◌, ◌-◌, ◌/◌, ◌%◌, ◌≤◌, ◌<◌, ◌≡◌, refl, ap, ◌∙◌, true, false, none, List, [], ◌∷◌,
  arith, length, length-append, length-replicate, get_elem?, replicate, ltb, eqb_ℤ, if◌then◌else◌,
  uint_mod, add_uint, sub_uint,
}
use goxos.Base.Outcome.{done, panic, ◌>>=◌, or_panic}
use goxos.Grp.Id.{GrpId}
use goxos.Paxos.Value.{bytes_eq}
use goxos.Reliablebc.Auth.{Bytes, Crypto, AuthManager, check_mac, generate_mac, hash_to_bytes}
use goxos.Reliablebc.Storage.{Storage, drop, re_slice, make_room, get, is_valid}
use goxos.Reliablebc.Learner.{Commit, LearnerRound, RelLearner, new_round, handle_commit}

-- Whoever names the receiver's own Paxos id needs no key.
check_mac-own :
    (c : Crypto) (au : AuthManager) (sender : GrpId) (value : Bytes) (rnd : ℕ)
    → eqb_ℤ sender.paxos_id au.id.paxos_id ≡ true
    → check_mac c au sender [] value rnd ≡ true
unfolding check_mac generate_mac bytes_eq
check_mac-own c au sender value rnd h = rw (h) refl

module _ {ℓ} {R : Type ℓ} (new : R) where
  length-drop : (i : ℕ) (rs : List R) → length (drop new i rs) ≡ length rs - i
  unfolding drop
  length-drop zero rs = omega arith
  length-drop (suc i) [] = omega arith
  length-drop (suc i) (r ∷ rs) = omega (arith, length-drop i rs)

  get_elem?-past : (rs : List R) (i : ℕ) → length rs ≤ i → get_elem? rs i ≡ none
  get_elem?-past [] i h = refl
  get_elem?-past (r ∷ rs) zero h = absurd (omega arith)
  get_elem?-past (r ∷ rs) (suc i) h = get_elem?-past rs i (omega arith)

  pub length-re_slice :
      (s : Storage R) → length s.rounds ≡ s.length → length (re_slice new s).rounds ≡ s.length
  unfolding re_slice
  length-re_slice s h =
      length-append (drop new (s.length / 3) s.rounds) (replicate (s.length / 3) new)
      ∙ omega (arith, length-drop (s.length / 3) s.rounds, length-replicate (s.length / 3) new)

  pub min-re_slice :
      (s : Storage R)
      → s.min + s.length / 3 < uint_mod
      → (re_slice new s).min ≡ s.min + s.length / 3
  unfolding re_slice
  min-re_slice s h = omega arith

  pub room_moved :
      (s : Storage R) (rnd : ℕ)
      → ltb rnd (add_uint s.min s.length) ≡ false
      → make_room new s rnd ≡ re_slice new s
  unfolding make_room
  room_moved s rnd h = ap (λ b. if b then s else re_slice new s) h

  get-past :
      (s s' : Storage R) (rnd : ℕ)
      → make_room new s rnd ≡ s'
      → get_elem? s'.rounds (sub_uint rnd s'.min) ≡ none
      → get new s rnd ≡ panic
  unfolding get
  get-past s s' rnd room past =
      ap (λ x. or_panic (get_elem? x.rounds (sub_uint rnd x.min)) >>= λ r. done (x, r)) room
      ∙ ap (λ o. or_panic o >>= λ r. done (s', r)) past

  -- A round that is out of reach even after the slice has moved on.
  get-far :
      (s : Storage R) (rnd : ℕ)
      → length s.rounds ≡ s.length
      → s.min + s.length + s.length / 3 ≤ rnd
      → rnd < uint_mod
      → get new s rnd ≡ panic
  get-far s rnd h far word =
      get-past s (re_slice new s) rnd (room_moved s rnd (beyond (s.min + s.length) far)) (
        get_elem?-past (re_slice new s).rounds (sub_uint rnd (re_slice new s).min) (
          out_of_range (re_slice new s).min (length (re_slice new s).rounds)
            (min-re_slice s (omega arith)) (length-re_slice s h)))
    where
      beyond : (n : ℕ) → n + s.length / 3 ≤ rnd → ltb rnd (n % uint_mod) ≡ false
      beyond n low = let small : n % uint_mod ≡ n = omega arith in rw (small) (ground arith)

      out_of_range : (m n : ℕ) → m ≡ s.min + s.length / 3 → n ≡ s.length → n ≤ sub_uint rnd m
      out_of_range m n e f = omega arith

is_valid-above :
    (s : Storage LearnerRound) (rnd : ℕ) → s.min ≤ rnd → is_valid new_round s rnd ≡ true
unfolding is_valid
is_valid-above s rnd h = ground arith

-- Anybody can crash a learner, without a key: by a commit in the name of the learner's own Paxos id,
-- with an empty code, for a round that is at least the length of the storage and a third of it above
-- the storage's first round.
pub handle_commit-crash :
    (c : Crypto) (l : RelLearner) (msg : Commit)
    → eqb_ℤ msg.id.paxos_id l.auth_mgr.id.paxos_id ≡ true
    → msg.hmac ≡ []
    → length l.rounds.rounds ≡ l.rounds.length
    → l.rounds.min + l.rounds.length + l.rounds.length / 3 ≤ msg.rnd
    → msg.rnd < uint_mod
    → handle_commit c l msg ≡ panic
unfolding handle_commit
handle_commit-crash c l msg own no_code h far word =
    rw (checked, handle_commit, valid, get-far new_round l.rounds msg.rnd h far word) refl
  where
    checked : check_mac c l.auth_mgr msg.id msg.hmac (hash_to_bytes msg.hash) msg.rnd ≡ true
    checked =
        ap (λ m. check_mac c l.auth_mgr msg.id m (hash_to_bytes msg.hash) msg.rnd) no_code
        ∙ check_mac-own c l.auth_mgr msg.id (hash_to_bytes msg.hash) msg.rnd own

    valid : is_valid new_round l.rounds msg.rnd ≡ true
    valid = is_valid-above l.rounds msg.rnd (omega arith)
