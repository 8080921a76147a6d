-- ===== src/Reliablebc/Storage.antt =====
-- The rounds that an acceptor or a learner stores (reliablebc/astorage.go, reliablebc/lstorage.go,
-- the same code twice): a slice that moves on by a third of its length.
use goxos.Base.{
  ℕ, zero, suc, ◌/◌, Bool, not, List, [], ◌∷◌, ◌++◌, ltb, if◌then◌else◌, get_elem?, set, replicate,
  add_uint, sub_uint,
}
use goxos.Base.Outcome.{Outcome, done, ◌>>=◌, or_panic}

-- `AcceptorStorage`, `LearnerStorage`
pub record Storage {ℓ} (R : Type ℓ) : Type ℓ where
  pub rounds : List R
  pub min : ℕ
  pub length : ℕ

module _ {ℓ} {R : Type ℓ} (new_round : R) where
  -- `NewAcceptorStorage`, `NewLearnerStorage`
  unfoldable pub new_storage : ℕ → Storage R
  new_storage length = record { rounds = replicate length new_round; min = 0; length = length }

  -- `rounds[i:]`
  unfoldable pub drop : ℕ → List R → List R
  drop zero rs = rs
  drop (suc i) [] = []
  drop (suc i) (r ∷ rs) = drop i rs

  -- `reSlice`
  unfoldable pub re_slice : Storage R → Storage R
  unfolding drop
  re_slice s = record s {
    rounds = drop (s.length / 3) s.rounds ++ replicate (s.length / 3) new_round;
    min = add_uint s.min (s.length / 3);
  }

  -- The storage as `Get` leaves it, and the index of the round.
  unfoldable pub make_room : Storage R → ℕ → Storage R
  unfolding re_slice
  make_room s rnd = if ltb rnd (add_uint s.min s.length) then s else re_slice s

  -- `Get`: an index out of range is a panic.
  unfoldable pub get : Storage R → ℕ → Outcome (Storage R × R)
  unfolding make_room
  get s rnd =
      let s' = make_room s rnd in
      or_panic (get_elem? s'.rounds (sub_uint rnd s'.min)) >>= λ r. done (s', r)

  -- A change of the round that `Get` has returned.
  unfoldable pub put : Storage R → ℕ → R → Storage R
  put s rnd r = record s { rounds = set s.rounds (sub_uint rnd s.min) r }

  -- `IsValid`
  unfoldable pub is_valid : Storage R → ℕ → Bool
  is_valid s rnd = not (ltb rnd s.min)
