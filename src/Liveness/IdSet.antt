-- ===== src/Liveness/IdSet.antt =====
-- A `map[grp.ID]bool` whose entries are all true: the list of its keys.
use goxos.Base.{
  ◌≡◌, refl, Bool, true, false, not, ◌&&◌, ◌||◌, List, [], ◌∷◌, arith, if◌then◌else◌, Bool-cases,
  inl, inr, ap, sym, subst, ◌∙◌,
}
use goxos.Grp.Id.{GrpId, id_eq, id_eq_iff, id_eq_refl}

-- `_, found := m[id]`
unfoldable pub has : List GrpId → GrpId → Bool
has [] id = false
has (j ∷ js) id = id_eq j id || has js id

-- `m[id] = true`
unfoldable pub put : List GrpId → GrpId → List GrpId
unfolding has
put s id = if has s id then s else id ∷ s

-- `delete(m, id)`
unfoldable pub drop : List GrpId → GrpId → List GrpId
drop [] id = []
drop (j ∷ js) id = let rest = drop js id in if id_eq j id then rest else j ∷ rest

pub id_eq_same : (a b : GrpId) → id_eq a b ≡ true → a ≡ b
id_eq_same a b h = (id_eq_iff a b).0 h

pub has-same : (s : List GrpId) (a b : GrpId) → id_eq a b ≡ true → has s a ≡ has s b
has-same s a b h = ap (has s) (id_eq_same a b h)

pub has-put : (s : List GrpId) (id j : GrpId) → has (put s id) j ≡ (id_eq id j || has s j)
unfolding put has
has-put s id j = elim (Bool-cases (has s id)) [
  | inl there ↦ elim (Bool-cases (id_eq id j)) [
    | inl same ↦ ground (arith, has-same s id j same)
    | inr other ↦ ground arith
  ]
  | inr new ↦ ground arith
]

has-drop-kept :
    (i id j : GrpId) (s : List GrpId) (m : Bool)
    → id_eq i id ≡ m
    → has (if m then s else i ∷ s) j ≡ ((not m && id_eq i j) || has s j)
unfolding has
has-drop-kept i id j s true h = refl
has-drop-kept i id j s false h = refl

not_both :
    (i id j : GrpId) (rest : Bool)
    → ((not (id_eq i id) && id_eq i j) || (not (id_eq id j) && rest))
      ≡ (not (id_eq id j) && (id_eq i j || rest))
not_both i id j rest = elim (Bool-cases (id_eq id j)) [
  | inl same ↦
      subst
        (λ x.
          ((not (id_eq i x) && id_eq i j) || (not (id_eq x j) && rest))
          ≡ (not (id_eq x j) && (id_eq i j || rest)))
        (sym (id_eq_same id j same)) (rw (id_eq_refl j) (both (id_eq i j)))
  | inr other ↦ elim (Bool-cases (id_eq i id)) [
    | inl there ↦
        subst
          (λ x.
            ((not (id_eq x id) && id_eq x j) || (not (id_eq id j) && rest))
            ≡ (not (id_eq id j) && (id_eq x j || rest)))
          (sym (id_eq_same i id there)) (rw (id_eq_refl id, other) refl)
    | inr new ↦ rw (new, other) refl
  ]
]
  where
    both : (b : Bool) → ((not b && b) || false) ≡ false
    both true = refl
    both false = refl

pub has-drop : (s : List GrpId) (id j : GrpId) → has (drop s id) j ≡ (not (id_eq id j) && has s j)
unfolding drop has
has-drop [] id j = ground arith
has-drop (i ∷ s) id j =
    has-drop-kept i id j (drop s id) (id_eq i id) refl
    ∙ ap (λ b. (not (id_eq i id) && id_eq i j) || b) (has-drop s id j)
    ∙ not_both i id j (has s j)
