-- ===== src/Liveness/Election.antt =====
-- The checks of the leader detector elect the right leaders, and a subscriber knows them
-- (`checkLeaders` of liveness/mon_ld.go).
use goxos.Base.{
  ◌≡◌, refl, sym, ap, subst, ◌∙◌, Bool, true, false, List, [], ◌∷◌, ◌++◌, arith, if◌then◌else◌,
  Bool-cases, inl, inr, ◌==◌, length,
}
use goxos.Base.Outcome.{done}
use goxos.Grp.Id.{GrpId, id_eq, id_eq_iff}
use goxos.Grp.NodeMap.{GrpMgr}
use goxos.Liveness.Rank.{IsElected, EpochsFit, candidates, pick-above-IsBest, pick-below-IsBest}
use goxos.Liveness.Ld.{
  min_id, max_id, MonarchicalLd, Trust, paxos_trust, replacement_trust, above, below, pick,
  max_rank, max_rank_lr, trust_paxos, trust_replacement, check_paxos_leader, check_leaders_lr_ar,
  check_leaders,
}

-- What a subscriber believes that starts with the leaders and follows what is published.
abbrev pub follow_paxos : GrpId → List Trust → GrpId
follow_paxos old [] = old
follow_paxos old (paxos_trust new ∷ ts) = follow_paxos new ts
follow_paxos old (replacement_trust new ∷ ts) = follow_paxos old ts

abbrev pub follow_replacement : GrpId → List Trust → GrpId
follow_replacement old [] = old
follow_replacement old (paxos_trust new ∷ ts) = follow_replacement old ts
follow_replacement old (replacement_trust new ∷ ts) = follow_replacement new ts

pub follow_paxos-append :
    (old : GrpId) (ts us : List Trust)
    → follow_paxos old (ts ++ us) ≡ follow_paxos (follow_paxos old ts) us
follow_paxos-append old [] us = refl
follow_paxos-append old (paxos_trust new ∷ ts) us = follow_paxos-append new ts us
follow_paxos-append old (replacement_trust new ∷ ts) us = follow_paxos-append old ts us

pub follow_replacement-append :
    (old : GrpId) (ts us : List Trust)
    → follow_replacement old (ts ++ us) ≡ follow_replacement (follow_replacement old ts) us
follow_replacement-append old [] us = refl
follow_replacement-append old (paxos_trust new ∷ ts) us = follow_replacement-append old ts us
follow_replacement-append old (replacement_trust new ∷ ts) us = follow_replacement-append new ts us

-- A check that ends well: the leaders are right for the suspicions, which it leaves alone, and a
-- subscriber knows them.
pub record Checked (g : GrpMgr) (ld ld' : MonarchicalLd) (ts : List Trust) : Type 0 where
  pub elected : IsElected g ld'
  pub suspected : ld'.suspected ≡ ld.suspected
  pub mode : ld'.lr_ar ≡ ld.lr_ar
  pub paxos : follow_paxos ld.pleader ts ≡ ld'.pleader
  pub replacement : follow_replacement ld.rleader ts ≡ ld'.rleader

abbrev with_paxos : MonarchicalLd → GrpId → MonarchicalLd
with_paxos ld new = record ld { pleader = new }

abbrev with_replacement : MonarchicalLd → GrpId → MonarchicalLd
with_replacement ld new = record ld { rleader = new }

-- Assigned or not, the leader is the new one, and who follows what is published knows it.
record PaxosTold (ld : MonarchicalLd) (new : GrpId) (r : MonarchicalLd × List Trust) : Type 0 where
  state : r.0 ≡ with_paxos ld new
  paxos : follow_paxos ld.pleader r.1 ≡ new
  replacement : (old : GrpId) → follow_replacement old r.1 ≡ old

record ReplacementTold (ld : MonarchicalLd) (new : GrpId) (r : MonarchicalLd × List Trust)
    : Type 0 where
  state : r.0 ≡ with_replacement ld new
  replacement : follow_replacement ld.rleader r.1 ≡ new
  paxos : (old : GrpId) → follow_paxos old r.1 ≡ old

trust_paxos-PaxosTold : (ld : MonarchicalLd) (new : GrpId) → PaxosTold ld new (trust_paxos ld new)
trust_paxos-PaxosTold ld new = elim (Bool-cases (id_eq new ld.pleader)) [
  | inl h ↦
      let e : ld.pleader ≡ new = sym ((id_eq_iff new ld.pleader).0 h) in
      rw (h) record { state = ap (with_paxos ld) e; paxos = e; replacement = λ old. refl }
  | inr h ↦ rw (h) record { state = refl; paxos = refl; replacement = λ old. refl }
]

trust_replacement-ReplacementTold :
    (ld : MonarchicalLd) (new : GrpId) → ReplacementTold ld new (trust_replacement ld new)
trust_replacement-ReplacementTold ld new = elim (Bool-cases (id_eq new ld.rleader)) [
  | inl h ↦
      let e : ld.rleader ≡ new = sym ((id_eq_iff new ld.rleader).0 h) in
      rw (h) record { state = ap (with_replacement ld) e; replacement = e; paxos = λ old. refl }
  | inr h ↦ rw (h) record { state = refl; replacement = refl; paxos = λ old. refl }
]

module _ (g : GrpMgr) (some_node : (length g.node_map.nodes == 0) ≡ false) (fit : EpochsFit g) where
  abbrev best : Bool → List GrpId → GrpId
  best lr_ar suspected = pick above suspected min_id (candidates g lr_ar)

  abbrev worst : Bool → List GrpId → GrpId
  worst lr_ar suspected = pick below suspected max_id (candidates g lr_ar)

  Checked-paxos :
      (ld : MonarchicalLd) (r : MonarchicalLd × List Trust)
      → ld.lr_ar ≡ false
      → PaxosTold ld (best false ld.suspected) r
      → Checked g ld r.0 r.1
  Checked-paxos ld r mode told =
      subst (λ l. Checked g ld l r.1) (sym told.state)
        (record {
          elected = record {
            paxos = rw (mode) (pick-above-IsBest g false ld.suspected fit);
            replacement = λ h. ground arith;
          };
          suspected = refl;
          mode = refl;
          paxos = told.paxos;
          replacement = told.replacement ld.rleader;
        })

  check_paxos_leader_eq :
      (ld : MonarchicalLd)
      → check_paxos_leader g ld ≡ done (trust_paxos ld (best false ld.suspected))
  unfolding check_paxos_leader max_rank
  check_paxos_leader_eq ld = rw (some_node) refl

  abbrev both_told : MonarchicalLd → MonarchicalLd × List Trust
  both_told ld =
      let (ld', trusts) = trust_paxos ld (best true ld.suspected) in
      let (ld'', more) = trust_replacement ld' (worst true ld.suspected) in (ld'', trusts ++ more)

  check_leaders_lr_ar_eq : (ld : MonarchicalLd) → check_leaders_lr_ar g ld ≡ done (both_told ld)
  unfolding check_leaders_lr_ar max_rank_lr
  check_leaders_lr_ar_eq ld = rw (some_node) refl

  Checked-both :
      (ld : MonarchicalLd) (r r' : MonarchicalLd × List Trust)
      → ld.lr_ar ≡ true
      → PaxosTold ld (best true ld.suspected) r
      → ReplacementTold r.0 (worst true ld.suspected) r'
      → Checked g ld r'.0 (r.1 ++ r'.1)
  Checked-both ld r r' mode told told' =
      let e : r'.0
          ≡ with_replacement (with_paxos ld (best true ld.suspected)) (worst true ld.suspected) =
        told'.state ∙ ap (λ l. with_replacement l (worst true ld.suspected)) told.state in
      subst (λ l. Checked g ld l (r.1 ++ r'.1)) (sym e)
        (record {
          elected = record {
            paxos = rw (mode) (pick-above-IsBest g true ld.suspected fit);
            replacement = λ h. rw (mode) (pick-below-IsBest g true ld.suspected fit);
          };
          suspected = refl;
          mode = refl;
          paxos =
              follow_paxos-append ld.pleader r.1 r'.1
              ∙ told'.paxos (follow_paxos ld.pleader r.1)
              ∙ told.paxos;
          replacement =
              follow_replacement-append ld.rleader r.1 r'.1
              ∙ ap (λ old. follow_replacement old r'.1)
                  (told.replacement ld.rleader ∙ sym (ap (λ l. l.rleader) told.state))
              ∙ told'.replacement;
        })

  check_leaders-mode :
      (ld : MonarchicalLd) (mode : Bool)
      → ld.lr_ar ≡ mode
      → check_leaders g ld ≡ (if mode then check_leaders_lr_ar g ld else check_paxos_leader g ld)
  unfolding check_leaders
  check_leaders-mode ld mode h =
      ap (λ m. if m then check_leaders_lr_ar g ld else check_paxos_leader g ld) h

  pub check_leaders_lem :
      (ld : MonarchicalLd)
      → (r : MonarchicalLd × List Trust) × ((check_leaders g ld ≡ done r) × Checked g ld r.0 r.1)
  check_leaders_lem ld = elim (Bool-cases ld.lr_ar) [
    | inl h ↦ (
      both_told ld,
      (
        check_leaders-mode ld true h ∙ check_leaders_lr_ar_eq ld,
        Checked-both ld (trust_paxos ld (best true ld.suspected))
            (trust_replacement (trust_paxos ld (best true ld.suspected)).0
              (worst true ld.suspected))
            h (trust_paxos-PaxosTold ld (best true ld.suspected))
            (trust_replacement-ReplacementTold (trust_paxos ld (best true ld.suspected)).0
              (worst true ld.suspected)),
      ),
    )
    | inr h ↦ (
      trust_paxos ld (best false ld.suspected),
      (
        check_leaders-mode ld false h ∙ check_paxos_leader_eq ld,
        Checked-paxos ld (trust_paxos ld (best false ld.suspected)) h
            (trust_paxos-PaxosTold ld (best false ld.suspected)),
      ),
    )
  ]
