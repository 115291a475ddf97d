-- ===== src/Ir/Optimize/Table.antt =====
-- HirConstantEnvironment of src/compiler/ir.c is a finite map from names to constants.
use vnt.Base.{
  ◌≡◌, refl, sym, ap, ◌∙◌, subst, inl, inr, true, false, none, some, [], ◌∷◌, if◌then◌else◌,
  Bool-cases, Option-cases, if_false,
}
use vnt.Ir.Node.{Name, name_eq, name_eq_iff}
use vnt.Ir.Optimize.Values.{HirConstant}
use vnt.Ir.Optimize.Known.{
  HirConstantEnvironment, hir_constant_find, hir_constant_remember, hir_constants_copy, known,
}

-- No name stands twice.
abbrev pub IsTable : HirConstantEnvironment → Type 0
IsTable [] = Unit
IsTable (k ∷ env) = (known env k.name ≡ none) × IsTable env

put : HirConstantEnvironment → Name → HirConstant → HirConstantEnvironment
put [] name c = record { name = name; constant = c } ∷ []
put (k ∷ env) name c =
    let rest = put env name c in
    if name_eq k.name name then record { name = name; constant = c } ∷ env else k ∷ rest

hir_constant_remember-put :
    (env : HirConstantEnvironment) (n : Name) (c : HirConstant)
    → hir_constant_remember env (some n) c ≡ put env n c
unfolding hir_constant_remember hir_constant_find put
hir_constant_remember-put [] n c = refl
hir_constant_remember-put (k ∷ env) n c = elim (Bool-cases (name_eq k.name n)) [
  | inl same ↦ rw (hir_constant_remember, hir_constant_find, same) refl
  | inr other ↦ elim (Option-cases (hir_constant_find env n)) [
    | inl e ↦
        let ih = hir_constant_remember-put env n c in
        rw (hir_constant_remember, hir_constant_find, other, e)
          (ap (λ x. k ∷ x) (rw (hir_constant_remember, e) at ih))
    | inr (i, e) ↦
        let ih = hir_constant_remember-put env n c in
        rw (hir_constant_remember, hir_constant_find, other, e)
          (ap (λ x. k ∷ x) (rw (hir_constant_remember, e) at ih))
  ]
]

pub name_eq-true : (a b : Name) → name_eq a b ≡ true → a ≡ b
name_eq-true a b h = (name_eq_iff a b).0 h

pub name_eq_sym : (a b : Name) → name_eq a b ≡ name_eq b a
name_eq_sym a b = elim (Bool-cases (name_eq a b)) [
  | inl h ↦ h ∙ sym ((name_eq_iff b a).1 (sym (name_eq-true a b h)))
  | inr h ↦ elim (Bool-cases (name_eq b a)) [
    | inl k ↦ absurd (cc ((name_eq_iff a b).1 (sym (name_eq-true b a k))))
    | inr k ↦ h ∙ sym k
  ]
]

known-put :
    (env : HirConstantEnvironment) (n : Name) (c : HirConstant) (m : Name)
    → known (put env n c) m ≡ (if name_eq n m then some c else known env m)
unfolding known put
known-put [] n c m = refl
known-put (k ∷ env) n c m = elim (Bool-cases (name_eq k.name n)) [
  | inl same ↦
      let e = name_eq-true k.name n same in
      elim (Bool-cases (name_eq n m)) [
        | inl hit ↦ rw (same, known, hit) refl
        | inr miss ↦
            let miss' : name_eq k.name m ≡ false = rw e miss in rw (same, known, miss, miss') refl
      ]
  | inr other ↦ elim (Bool-cases (name_eq k.name m)) [
    | inl hit ↦
        let e = name_eq-true k.name m hit in
        let miss : name_eq n m ≡ false =
          name_eq_sym n m ∙ subst (λ x. name_eq x n ≡ false) e other in
        rw (other, known, hit, miss) refl
    | inr miss ↦ rw (other, known, miss) (known-put env n c m)
  ]
]

IsTable-put :
    (env : HirConstantEnvironment) (n : Name) (c : HirConstant)
    → IsTable env
    → IsTable (put env n c)
unfolding put known
IsTable-put [] n c t = (refl, tt)
IsTable-put (k ∷ env) n c t = elim (Bool-cases (name_eq k.name n)) [
  | inl same ↦
      let e = name_eq-true k.name n same in rw same (subst (λ x. known env x ≡ none) e t.0, t.1)
  | inr other ↦
      let miss = name_eq_sym n k.name ∙ other in
      rw other (
        known-put env n c k.name ∙ (if_false (name_eq n k.name) _ _ miss ∙ t.0),
        IsTable-put env n c t.1,
      )
]

-- What is remembered of a name replaces what was known of it, and of no other name.
pub hir_constant_remember-Table :
    (env : HirConstantEnvironment) (n : Name) (c : HirConstant)
    → IsTable env
    → IsTable (hir_constant_remember env (some n) c)
      × ((m : Name)
          → known (hir_constant_remember env (some n) c) m
            ≡ (if name_eq n m then some c else known env m))
hir_constant_remember-Table env n c t =
    let same = hir_constant_remember-put env n c in
    (
      subst IsTable (sym same) (IsTable-put env n c t),
      λ m. ap (λ e. known e m) same ∙ known-put env n c m,
    )

-- The copy of a table knows what the table knows.
pub copied :
    (env done : HirConstantEnvironment)
    → IsTable env
    → IsTable done
    → IsTable (hir_constants_copy done env)
      × ((m : Name)
          → known (hir_constants_copy done env) m
            ≡ elim (known env m) [ none ↦ known done m | some c ↦ some c ])
unfolding hir_constants_copy known
copied [] done t u = (u, λ m. refl)
copied (k ∷ env) done t u =
    let r = hir_constant_remember-Table done k.name k.constant u in
    let (table, knows) = copied env (hir_constant_remember done (some k.name) k.constant) t.1 r.0 in
    (
      table,
      λ m. elim (Bool-cases (name_eq k.name m)) [
        | inl hit ↦
            let e = name_eq-true k.name m hit in
            let lost : known env m ≡ none = subst (λ x. known env x ≡ none) e t.0 in
            knows m ∙ rw (lost, r.1 m, hit) refl
        | inr miss ↦ knows m ∙ elim (Option-cases (known env m)) [
          | inl e ↦ rw (miss, e) (r.1 m ∙ if_false (name_eq k.name m) _ _ miss)
          | inr (c, e) ↦ rw (miss, e) refl
        ]
      ],
    )
