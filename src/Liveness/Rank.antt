-- ===== src/Liveness/Rank.antt =====
-- Whom the leader detector elects (`maxRank` and `maxRankLr` of liveness/mon_ld.go).
use goxos.Base.{
  ℕ, ◌≤◌, ◌<◌, uint_mod, ap, All, ltb, ◌==◌, ==_iff, ◌≡◌, refl, sym, subst, ◌∙◌, Bool, true, false,
  not, ◌&&◌, List, [], ◌∷◌, arith, if◌then◌else◌, Bool-cases, ◌⊎◌, inl, inr, ltb_ℤ, ℤ,
}
use mathlib.Core.List.{Memᴰ}
use goxos.Grp.Id.{GrpId}
use goxos.Grp.NodeMap.{GrpMgr}
use goxos.Liveness.IdSet.{has}
use goxos.Liveness.Ld.{
  min_id, max_id, MonarchicalLd, above, below, pick, min_epoch, with_epoch, max_epoch,
}

-- The leader is an unsuspected candidate, or the id that stands for nobody; and no unsuspected
-- candidate is better.
pub record IsBest (better : GrpId → GrpId → Bool) (nobody : GrpId) (suspected : List GrpId)
    (Candidate : GrpId → Type 0) (leader : GrpId) : Type 0 where
  pub member : (leader ≡ nobody) ⊎ (Candidate leader × (has suspected leader ≡ false))
  pub top : (id : GrpId) → Candidate id → has suspected id ≡ false → better id leader ≡ false

IsBest-iff :
    (better : GrpId → GrpId → Bool) (nobody : GrpId) (s : List GrpId) (P Q : GrpId → Type 0)
    (leader : GrpId)
    → ((id : GrpId) → P id → Q id)
    → ((id : GrpId) → Q id → P id)
    → IsBest better nobody s P leader
    → IsBest better nobody s Q leader
IsBest-iff better nobody s P Q leader f g b = record {
  member = elim b.member [ inl e ↦ inl e | inr (m, u) ↦ inr (f leader m, u) ];
  top = λ id q u. b.top id (g id q) u;
}

module _ (better : GrpId → GrpId → Bool)
    (asym : (a b : GrpId) → better a b ≡ true → better b a ≡ false)
    (trans : (a b c : GrpId) → better b a ≡ false → better c b ≡ false → better c a ≡ false)
    (s : List GrpId) where
  abbrev next : GrpId → GrpId → GrpId
  next leader id = if better id leader && not (has s id) then id else leader

  irrefl : (a : GrpId) → better a a ≡ false
  irrefl a = elim (Bool-cases (better a a)) [ inl h ↦ asym a a h | inr h ↦ h ]

  next-not_worse : (leader id : GrpId) → better leader (next leader id) ≡ false
  next-not_worse leader id = elim (Bool-cases (better id leader && not (has s id))) [
    | inl h ↦ rw (h) (asym id leader (ground arith))
    | inr h ↦ rw (h) (irrefl leader)
  ]

  next-covers : (leader id : GrpId) → has s id ≡ false → better id (next leader id) ≡ false
  next-covers leader id h = elim (Bool-cases (better id leader)) [
    | inl b ↦ rw (h, b) (irrefl id)
    | inr b ↦ rw (h, b) b
  ]

  next-chosen :
      (leader id : GrpId) → (next leader id ≡ leader) ⊎ ((next leader id ≡ id) × (has s id ≡ false))
  next-chosen leader id = elim (Bool-cases (better id leader && not (has s id))) [
    | inl h ↦ inr (rw (h) refl, ground arith)
    | inr h ↦ inl (rw (h) refl)
  ]

  pick-not_worse :
      (ids : List GrpId) (leader : GrpId) → better leader (pick better s leader ids) ≡ false
  unfolding pick
  pick-not_worse [] leader = irrefl leader
  pick-not_worse (id ∷ ids) leader =
      trans _ _ _ (pick-not_worse ids (next leader id)) (next-not_worse leader id)

  pick-top :
      (ids : List GrpId) (leader id : GrpId)
      → Memᴰ id ids
      → has s id ≡ false
      → better id (pick better s leader ids) ≡ false
  unfolding pick
  pick-top [] leader id m h = elim m [ ]
  pick-top (i ∷ ids) leader id (Memᴰ.head e) h = trans _ _ _ (pick-not_worse ids (next leader i)) (
      subst (λ x. better x (next leader i) ≡ false) (sym e)
        (next-covers leader i (subst (λ x. has s x ≡ false) e h)))
  pick-top (i ∷ ids) leader id (Memᴰ.tail m) h = pick-top ids (next leader i) id m h

  -- What `pick` returns is where it started, or one of the unsuspected.
  pick-member :
      (ids : List GrpId) (leader : GrpId)
      → (pick better s leader ids ≡ leader)
        ⊎ (Memᴰ (pick better s leader ids) ids × (has s (pick better s leader ids) ≡ false))
  unfolding pick
  pick-member [] leader = inl refl
  pick-member (i ∷ ids) leader = elim (pick-member ids (next leader i)) [
    | inr (m, u) ↦ inr (Memᴰ.tail m, u)
    | inl e ↦ elim (next-chosen leader i) [
      | inl same ↦ inl (e ∙ same)
      | inr (new, u) ↦ inr (Memᴰ.head (e ∙ new), subst (λ x. has s x ≡ false) (sym (e ∙ new)) u)
    ]
  ]

  pick-IsBest :
      (ids : List GrpId) (nobody : GrpId)
      → IsBest better nobody s (λ id. Memᴰ id ids) (pick better s nobody ids)
  pick-IsBest ids nobody = record {
    member = pick-member ids nobody;
    top = λ id. λ m. λ u. pick-top ids nobody id m u;
  }

ltb_ℤ-asym : (a b : ℤ) → ltb_ℤ a b ≡ true → ltb_ℤ b a ≡ false
ltb_ℤ-asym a b h = ground arith

ltb_ℤ-trans_not : (a b c : ℤ) → ltb_ℤ b a ≡ false → ltb_ℤ c b ≡ false → ltb_ℤ c a ≡ false
ltb_ℤ-trans_not a b c h k = ground arith

-- The ids that the loops go through: all of them, or in the other mode those of the lowest epoch.
abbrev pub candidates : GrpMgr → Bool → List GrpId
candidates g lr_ar =
    let ids = g.node_map.proposer_ids_memoized in
    if lr_ar then with_epoch (min_epoch max_epoch ids) ids else ids

-- The ids that the election is about: all the proposers, or in the other mode those of which no
-- proposer has a lower epoch.
abbrev pub IsCandidate : GrpMgr → Bool → GrpId → Type 0
IsCandidate g lr_ar id =
    Memᴰ id g.node_map.proposer_ids_memoized
    × (lr_ar ≡ true → (j : GrpId) → Memᴰ j g.node_map.proposer_ids_memoized → id.epoch ≤ j.epoch)

-- Epochs are words.
abbrev pub EpochsFit : GrpMgr → Type 0
EpochsFit g = All (λ (id : GrpId). id.epoch < uint_mod) g.node_map.proposer_ids_memoized

epoch-lt :
    (ids : List GrpId) (id : GrpId)
    → All (λ (i : GrpId). i.epoch < uint_mod) ids
    → Memᴰ id ids
    → id.epoch < uint_mod
epoch-lt [] id h m = elim m [ ]
epoch-lt (i ∷ ids) id h (Memᴰ.head e) = subst (λ (x : GrpId). x.epoch < uint_mod) (sym e) h.0
epoch-lt (i ∷ ids) id h (Memᴰ.tail m) = epoch-lt ids id h.1 m

min_epoch-le-seen : (seen : ℕ) (ids : List GrpId) → min_epoch seen ids ≤ seen
unfolding min_epoch
min_epoch-le-seen seen [] = omega arith
min_epoch-le-seen seen (id ∷ ids) =
    ground (arith, min_epoch-le-seen (if ltb id.epoch seen then id.epoch else seen) ids)

min_epoch-le : (seen : ℕ) (ids : List GrpId) (j : GrpId) → Memᴰ j ids → min_epoch seen ids ≤ j.epoch
unfolding min_epoch
min_epoch-le seen [] j m = elim m [ ]
min_epoch-le seen (id ∷ ids) j (Memᴰ.head e) =
    subst (λ (x : GrpId). min_epoch seen (id ∷ ids) ≤ x.epoch) (sym e)
      (ground (arith, min_epoch-le-seen (if ltb id.epoch seen then id.epoch else seen) ids))
min_epoch-le seen (id ∷ ids) j (Memᴰ.tail m) =
    min_epoch-le (if ltb id.epoch seen then id.epoch else seen) ids j m

-- A bound of the start and of every epoch bounds the result.
le-min_epoch :
    (n seen : ℕ) (ids : List GrpId)
    → n ≤ seen
    → ((j : GrpId) → Memᴰ j ids → n ≤ j.epoch)
    → n ≤ min_epoch seen ids
unfolding min_epoch
le-min_epoch n seen [] h f = h
le-min_epoch n seen (id ∷ ids) h f =
    le-min_epoch n (if ltb id.epoch seen then id.epoch else seen) ids
      (ground (arith, f id (Memᴰ.head refl))) (λ j m. f j (Memᴰ.tail m))

mem-with_epoch :
    (e : ℕ) (ids : List GrpId) (id : GrpId)
    → Memᴰ id ids
    → id.epoch ≡ e
    → Memᴰ id (with_epoch e ids)
unfolding with_epoch
mem-with_epoch e [] id m same = elim m [ ]
mem-with_epoch e (i ∷ ids) id (Memᴰ.head q) same =
    let f : i.epoch ≡ e = ap (λ (x : GrpId). x.epoch) (sym q) ∙ same in
    let here : (i.epoch == e) ≡ true = ground arith in rw (here, with_epoch) (Memᴰ.head q)
mem-with_epoch e (i ∷ ids) id (Memᴰ.tail q) same =
    let later = mem-with_epoch e ids id q same in
    elim (Bool-cases (i.epoch == e)) [
      | inl here ↦ rw (here, with_epoch) (Memᴰ.tail later)
      | inr other ↦ rw (other, with_epoch) later
    ]

-- What the loop keeps of a list is in the list, and has the epoch.
with_epoch-mem :
    (e : ℕ) (ids : List GrpId) (id : GrpId)
    → Memᴰ id (with_epoch e ids)
    → Memᴰ id ids × (id.epoch ≡ e)
unfolding with_epoch
with_epoch-mem e [] id m = elim m [ ]
with_epoch-mem e (i ∷ ids) id m = elim (Bool-cases (i.epoch == e)) [
  | inl here ↦ kept (with_epoch-mem e ids id) here (rw (here, with_epoch) at m)
  | inr other ↦
      let (old, same) = with_epoch-mem e ids id (rw (other, with_epoch) at m) in
      (Memᴰ.tail old, same)
]
  where
    kept :
        (Memᴰ id (with_epoch e ids) → Memᴰ id ids × (id.epoch ≡ e))
        → (i.epoch == e) ≡ true
        → Memᴰ id (i ∷ with_epoch e ids)
        → Memᴰ id (i ∷ ids) × (id.epoch ≡ e)
    kept later here (Memᴰ.head q) =
        (Memᴰ.head q, ap (λ (x : GrpId). x.epoch) q ∙ (==_iff i.epoch e).0 here)
    kept later here (Memᴰ.tail q) = let (old, same) = later q in (Memᴰ.tail old, same)

mem-candidates :
    (g : GrpMgr) (lr_ar : Bool) (id : GrpId) → Memᴰ id (candidates g lr_ar) → IsCandidate g lr_ar id
mem-candidates g false id m = (m, λ h. ground arith)
mem-candidates g true id m =
    let ids = g.node_map.proposer_ids_memoized in
    let (old, same) = with_epoch-mem (min_epoch max_epoch ids) ids id m in
    (old, λ _ j q. omega (arith, same, min_epoch-le max_epoch ids j q))

candidates-mem :
    (g : GrpMgr) (lr_ar : Bool) (id : GrpId)
    → EpochsFit g
    → IsCandidate g lr_ar id
    → Memᴰ id (candidates g lr_ar)
candidates-mem g false id fit (m, _) = m
candidates-mem g true id fit (m, lowest) =
    let ids = g.node_map.proposer_ids_memoized in
    let word : id.epoch < uint_mod = epoch-lt ids id fit m in
    let low : id.epoch ≤ min_epoch max_epoch ids =
      le-min_epoch id.epoch max_epoch ids (omega (arith, word)) (lowest refl) in
    mem-with_epoch (min_epoch max_epoch ids) ids id m
      (omega (arith, low, min_epoch-le max_epoch ids id m))

-- The highest, and the lowest, Paxos id.
pub pick-above-IsBest :
    (g : GrpMgr) (lr_ar : Bool) (s : List GrpId)
    → EpochsFit g
    → IsBest above min_id s (IsCandidate g lr_ar) (pick above s min_id (candidates g lr_ar))
pick-above-IsBest g lr_ar s fit =
    let ids = candidates g lr_ar in
    IsBest-iff above min_id s (λ id. Memᴰ id ids) (IsCandidate g lr_ar) (pick above s min_id ids)
      (mem-candidates g lr_ar) (λ id. candidates-mem g lr_ar id fit)
      (pick-IsBest above (λ a. λ b. ltb_ℤ-asym b.paxos_id a.paxos_id)
        (λ a. λ b. λ c. λ h. λ k. ltb_ℤ-trans_not c.paxos_id b.paxos_id a.paxos_id k h) s ids
        min_id)

pub pick-below-IsBest :
    (g : GrpMgr) (lr_ar : Bool) (s : List GrpId)
    → EpochsFit g
    → IsBest below max_id s (IsCandidate g lr_ar) (pick below s max_id (candidates g lr_ar))
pick-below-IsBest g lr_ar s fit =
    let ids = candidates g lr_ar in
    IsBest-iff below max_id s (λ id. Memᴰ id ids) (IsCandidate g lr_ar) (pick below s max_id ids)
      (mem-candidates g lr_ar) (λ id. candidates-mem g lr_ar id fit)
      (pick-IsBest below (λ a. λ b. ltb_ℤ-asym a.paxos_id b.paxos_id)
        (λ a. λ b. λ c. λ h. λ k. ltb_ℤ-trans_not a.paxos_id b.paxos_id c.paxos_id h k) s ids
        max_id)

-- The leaders are what the suspicions call for.
pub record IsElected (g : GrpMgr) (ld : MonarchicalLd) : Type 0 where
  pub paxos : IsBest above min_id ld.suspected (IsCandidate g ld.lr_ar) ld.pleader
  pub replacement :
      ld.lr_ar ≡ true → IsBest below max_id ld.suspected (IsCandidate g ld.lr_ar) ld.rleader
