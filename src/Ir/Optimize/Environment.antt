-- ===== src/Ir/Optimize/Environment.antt =====
-- What hir_constant_invalidate of src/compiler/ir.c leaves of an environment, and the environment as a
-- finite map.
use vnt.Base.{
  ℕ, suc, ◌-◌, ◌<◌, ◌≡◌, refl, sym, ap, ◌∙◌, subst, inl, inr, false, Option, none, some, [], ◌∷◌,
  arith, if◌then◌else◌, Bool-cases, Option-cases, if_false, length, get_or, take,
}
use vnt.Ir.Node.{Name, name_eq}
use vnt.Ir.Optimize.Values.{HirConstant}
use vnt.Ir.Optimize.Known.{
  HirKnownConstant, HirConstantEnvironment, blank_item, hir_constant_find, remove_at,
  hir_constant_invalidate, hir_constant_remember, hir_constants_copy, known,
}
use vnt.Ir.Optimize.Table.{IsTable, name_eq-true, name_eq_sym, hir_constant_remember-Table, copied}

-- A table whose first item is replaced by the last.
front : HirConstantEnvironment → HirConstantEnvironment
front [] = []
front (e ∷ env) = get_or (e ∷ env) (length env) blank_item ∷ take (length env) (e ∷ env)

drop_name : HirConstantEnvironment → Name → HirConstantEnvironment
drop_name [] n = []
drop_name (k ∷ env) n =
    let rest = drop_name env n in if name_eq k.name n then front env else k ∷ rest

-- Two items of different names may be looked at in either order.
swapped :
    (a b : HirKnownConstant) (rest : Option HirConstant) (m : Name)
    → name_eq a.name b.name ≡ false
    → (if name_eq a.name m
        then some a.constant
        else if name_eq b.name m
        then some b.constant
        else rest)
      ≡ (if name_eq b.name m
          then some b.constant
          else if name_eq a.name m
          then some a.constant
          else rest)
swapped a b rest m h = elim (Bool-cases (name_eq a.name m)) [
  | inl hit ↦
      let e = name_eq-true a.name m hit in
      let miss = name_eq_sym b.name m ∙ subst (λ x. name_eq x b.name ≡ false) e h in
      rw (hit, miss) refl
  | inr other ↦ rw other refl
]

-- What is known of a name that no item has.
missing :
    (k : HirKnownConstant) (rest : Option HirConstant) (m : Name)
    → (if name_eq k.name m then some k.constant else rest) ≡ none
    → name_eq k.name m ≡ false
missing k rest m h = elim (Bool-cases (name_eq k.name m)) [
  | inl hit ↦ absurd (cc (rw hit at h))
  | inr other ↦ other
]

known-front :
    (env : HirConstantEnvironment) (m : Name) → IsTable env → known (front env) m ≡ known env m
unfolding front known
known-front [] m t = refl
known-front (e ∷ []) m t = refl
known-front (e ∷ f ∷ env) m t =
    let last = get_or (f ∷ env) (length env) blank_item in
    let lost =
      missing last (known (take (length env) (f ∷ env)) e.name) e.name
        (known-front (f ∷ env) e.name t.1 ∙ t.0) in
    swapped last e (known (take (length env) (f ∷ env)) m) m lost
    ∙ ap (λ x. if name_eq e.name m then some e.constant else x) (known-front (f ∷ env) m t.1)

known-drop_name :
    (env : HirConstantEnvironment) (n m : Name)
    → IsTable env
    → known (drop_name env n) m ≡ (if name_eq n m then none else known env m)
unfolding known drop_name
known-drop_name [] n m t = elim (Bool-cases (name_eq n m)) [
  | inl hit ↦ rw hit refl
  | inr miss ↦ rw miss refl
]
known-drop_name (k ∷ env) n m t = elim (Bool-cases (name_eq k.name n)) [
  | inl same ↦
      let e = name_eq-true k.name n same in
      let moved = known-front env m t.1 in
      elim (Bool-cases (name_eq n m)) [
        | inl hit ↦
            let lost : known env m ≡ none =
              subst (λ x. known env x ≡ none) (e ∙ name_eq-true n m hit) t.0 in
            rw (drop_name, same, hit) (moved ∙ lost)
        | inr miss ↦
            let miss' : name_eq k.name m ≡ false = rw e miss in
            rw (drop_name, same, miss, miss') moved
      ]
  | inr other ↦ elim (Bool-cases (name_eq k.name m)) [
    | inl hit ↦
        let e = name_eq-true k.name m hit in
        let miss : name_eq n m ≡ false =
          name_eq_sym n m ∙ subst (λ x. name_eq x n ≡ false) e other in
        rw (drop_name, other, known, hit, miss) refl
    | inr miss ↦ rw (drop_name, other, known, miss) (known-drop_name env n m t.1)
  ]
]

IsTable-front : (env : HirConstantEnvironment) → IsTable env → IsTable (front env)
unfolding front known
IsTable-front [] t = tt
IsTable-front (e ∷ []) t = (refl, tt)
IsTable-front (e ∷ f ∷ env) t =
    let last = get_or (f ∷ env) (length env) blank_item in
    let ih = IsTable-front (f ∷ env) t.1 in
    let kept = known-front (f ∷ env) e.name t.1 ∙ t.0 in
    let lost = missing last (known (take (length env) (f ∷ env)) e.name) e.name kept in
    (
      if_false (name_eq e.name last.name) _ _ (name_eq_sym e.name last.name ∙ lost) ∙ ih.0,
      (sym (if_false (name_eq last.name e.name) _ _ lost) ∙ kept, ih.1),
    )

IsTable-drop_name :
    (env : HirConstantEnvironment) (n : Name) → IsTable env → IsTable (drop_name env n)
unfolding drop_name
IsTable-drop_name [] n t = tt
IsTable-drop_name (k ∷ env) n t = elim (Bool-cases (name_eq k.name n)) [
  | inl same ↦ rw (drop_name, same) (IsTable-front env t.1)
  | inr other ↦
      rw (drop_name, other)
        (
          known-drop_name env n k.name t.1
              ∙ (if_false (name_eq n k.name) _ _ (name_eq_sym n k.name ∙ other) ∙ t.0),
          IsTable-drop_name env n t.1,
        )
]

hir_constant_find-bound :
    (env : HirConstantEnvironment) (n : Name) (i : ℕ)
    → hir_constant_find env n ≡ some i
    → i < length env
unfolding hir_constant_find
hir_constant_find-bound [] n i h = cc
hir_constant_find-bound (k ∷ env) n i h = elim (Bool-cases (name_eq k.name n)) [
  | inl same ↦
      let e : some 0 ≡ some i = rw (hir_constant_find, same) at h in
      let e' : 0 ≡ i = cc in omega arith
  | inr other ↦ elim (Option-cases (hir_constant_find env n)) [
    | inl e ↦ absurd (cc (rw (hir_constant_find, other, e) at h))
    | inr (j, e) ↦
        let p : some (suc j) ≡ some i = rw (hir_constant_find, other, e) at h in
        let p' : suc j ≡ i = cc in omega (arith, hir_constant_find-bound env n j e)
  ]
]

remove_at-first :
    (k : HirKnownConstant) (env : HirConstantEnvironment) → remove_at (k ∷ env) 0 ≡ front env
unfolding remove_at front
remove_at-first k [] = refl
remove_at-first k (e ∷ env) =
    let last : suc (suc (length env)) - 1 ≡ suc (length env) = omega arith in
    rw (remove_at, last) refl

remove_at-later :
    (k : HirKnownConstant) (env : HirConstantEnvironment) (i : ℕ)
    → i < length env
    → remove_at (k ∷ env) (suc i) ≡ k ∷ remove_at env i
unfolding remove_at
remove_at-later k [] i h = absurd (omega arith)
remove_at-later k (e ∷ env) i h =
    let last : suc (suc (length env)) - 1 ≡ suc (length env) = omega arith in
    let before : suc (length env) - 1 ≡ length env = omega arith in
    rw (remove_at, last, before) refl

hir_constant_invalidate-drop_name :
    (env : HirConstantEnvironment) (n : Name) → hir_constant_invalidate env n ≡ drop_name env n
unfolding hir_constant_invalidate hir_constant_find drop_name
hir_constant_invalidate-drop_name [] n = refl
hir_constant_invalidate-drop_name (k ∷ env) n = elim (Bool-cases (name_eq k.name n)) [
  | inl same ↦
      rw (hir_constant_invalidate, hir_constant_find, drop_name, same) (remove_at-first k env)
  | inr other ↦ elim (Option-cases (hir_constant_find env n)) [
    | inl e ↦
        let ih = hir_constant_invalidate-drop_name env n in
        rw (hir_constant_invalidate, hir_constant_find, drop_name, other, e)
          (ap (λ x. k ∷ x) (rw (hir_constant_invalidate, e) at ih))
    | inr (i, e) ↦
        let ih = hir_constant_invalidate-drop_name env n in
        rw (hir_constant_invalidate, hir_constant_find, drop_name, other, e)
          (remove_at-later k env i (hir_constant_find-bound env n i e)
            ∙ ap (λ x. k ∷ x) (rw (hir_constant_invalidate, e) at ih))
  ]
]

-- The environment is a finite map. On a table, in which no name stands twice: what is remembered of
-- a name replaces what was known of it and of no other name, an invalidated name is not known and
-- the others stay, a copy into the empty environment knows the same, and the results are tables.
pub hir_constant_environment-IsMap :
    (env : HirConstantEnvironment) (n : Name) (c : HirConstant)
    → IsTable env
    → (IsTable (hir_constant_remember env (some n) c)
        × ((m : Name)
            → known (hir_constant_remember env (some n) c) m
              ≡ (if name_eq n m then some c else known env m)))
      × (IsTable (hir_constant_invalidate env n)
          × ((m : Name)
              → known (hir_constant_invalidate env n) m
                ≡ (if name_eq n m then none else known env m)))
      × (IsTable (hir_constants_copy [] env)
          × ((m : Name) → known (hir_constants_copy [] env) m ≡ known env m))
unfolding known
hir_constant_environment-IsMap env n c t =
    let same = hir_constant_invalidate-drop_name env n in
    let (table, knows) = copied env [] t tt in
    (
      hir_constant_remember-Table env n c t,
      (
        subst IsTable (sym same) (IsTable-drop_name env n t),
        λ m. ap (λ e. known e m) same ∙ known-drop_name env n m t,
      ),
      (
        table,
        λ m.
            knows m
            ∙ elim (Option-cases (known env m)) [ inl e ↦ rw e refl | inr (v, e) ↦ rw e refl ],
      ),
    )
