-- ===== src/Ir/Optimize/Known.antt =====
-- HirConstantEnvironment of src/compiler/ir.c: the variables known to be constant, in an array that a
-- removal fills with its last item. The capacity is not modelled: an allocation is taken to succeed.
use vnt.Base.{
  ℕ, suc, ◌-◌, false, Option, none, some, List, [], ◌∷◌, ◌++◌, if◌then◌else◌, length, get_or, set,
  take,
}
use vnt.Ir.Node.{Name, name_eq}
use vnt.Ir.Optimize.Values.{HirConstant, of_boolean}

pub record HirKnownConstant : Type 0 where
  pub name : Name
  pub constant : HirConstant

abbrev pub HirConstantEnvironment : Type 0
HirConstantEnvironment = List HirKnownConstant

-- The index of a name; `none` is VNT_IR_NO_NODE.
unfoldable pub hir_constant_find : HirConstantEnvironment → Name → Option ℕ
hir_constant_find [] name = none
hir_constant_find (k ∷ env) name =
    let rest = hir_constant_find env name in
    if name_eq k.name name then some 0 else elim rest [ none ↦ none | some i ↦ some (suc i) ]

-- What stands where nothing is stored.
abbrev pub blank_item : HirKnownConstant
blank_item = record { name = []; constant = of_boolean false }

-- env->items[index] = env->items[--env->count]
unfoldable pub remove_at : HirConstantEnvironment → ℕ → HirConstantEnvironment
remove_at env index =
    let last = length env - 1 in take last (set env index (get_or env last blank_item))

unfoldable pub hir_constant_invalidate : HirConstantEnvironment → Name → HirConstantEnvironment
unfolding remove_at
hir_constant_invalidate env name = elim (hir_constant_find env name) [
  | none ↦ env
  | some index ↦ remove_at env index
]

-- A name is remembered in its place, where the item's name is the same, or behind the others; NULL is
-- not remembered.
unfoldable pub hir_constant_remember :
    HirConstantEnvironment → Option Name → HirConstant → HirConstantEnvironment
hir_constant_remember env none constant = env
hir_constant_remember env (some name) constant = elim (hir_constant_find env name) [
  | none ↦ env ++ record { name = name; constant = constant } ∷ []
  | some index ↦ set env index (record { name = name; constant = constant })
]

unfoldable pub hir_constants_copy :
    HirConstantEnvironment → HirConstantEnvironment → HirConstantEnvironment
hir_constants_copy destination [] = destination
hir_constants_copy destination (k ∷ source) =
    hir_constants_copy (hir_constant_remember destination (some k.name) k.constant) source

-- What the array knows of a name: the constant at the index that is found.
unfoldable pub known : HirConstantEnvironment → Name → Option HirConstant
known [] name = none
known (k ∷ env) name = if name_eq k.name name then some k.constant else known env name
