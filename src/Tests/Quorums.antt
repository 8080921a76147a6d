-- ===== src/Tests/Quorums.antt =====
-- The search for a valid quorum (multipaxos/vq.go) on concrete promises.
use goxos.Base.{ℕ, ◌≡◌, refl, true, List, [], ◌∷◌, length, for_range}
use goxos.Base.Outcome.{done}
use goxos.Grp.Id.{GrpId}
use goxos.Paxos.Msg.{Promise}
use goxos.Lr.Comb.{binomial, first_from, new_combination_iterator, carry, update_s, next}
use goxos.Lr.ValidQuorum.{conflict, check_against, check_combination, find_combination, extract_vq}
use goxos.Lr.Sound.{AllAgree, extract_vq-AllAgree}
use goxos.Tests.{replica, round}

abbrev sender : Promise → GrpId
sender m = m.id

abbrev vector : Promise → List ℕ
vector m = m.epoch_vector

abbrev promise_in : GrpId → List ℕ → Promise
promise_in id epochs = record { id = id; rnd = round 1; acc_slots = []; epoch_vector = epochs }

-- The replica 0 of epoch 0 was replaced, which replica 1 knows.
abbrev promises : List Promise
promises =
    promise_in (replica 0) (0 ∷ 0 ∷ 0 ∷ [])
    ∷ promise_in (replica 1) (1 ∷ 0 ∷ 0 ∷ [])
    ∷ promise_in (replica 2) (0 ∷ 0 ∷ 0 ∷ [])
    ∷ []

first_quorum : extract_vq sender vector promises 2 ≡ done (true, 0 ∷ 2 ∷ [])
unfolding binomial first_from new_combination_iterator carry update_s next conflict check_against
    check_combination find_combination extract_vq for_range
first_quorum = refl

extract_vq-AllAgree_example :
    AllAgree sender vector promises (0 ∷ 2 ∷ []) × (length {A = ℕ} (0 ∷ 2 ∷ []) ≡ 2)
extract_vq-AllAgree_example = extract_vq-AllAgree sender vector promises 2 (0 ∷ 2 ∷ []) first_quorum
