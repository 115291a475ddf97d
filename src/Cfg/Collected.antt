-- ===== src/Cfg/Collected.antt =====
-- What collect_variables of src/compiler/cfg.c collects: each name that a node mentions as a variable,
-- once.
use vnt.Base.{
  ◌≡◌, refl, sym, ap, subst, ◌↔◌, ◌⊎◌, inl, inr, true, Option, none, some, List, [], ◌∷◌, ◌++◌,
  arith, if◌then◌else◌, Bool-cases, if_rule,
}
use vnt.Ir.Node.{
  Name, name_eq, name_eq_iff, Opcode, Node, Program, Payload, text_of, variable, variable_decl,
  reassign, function, text, integer, boolean, floating,
}
use vnt.Cfg.Variables.{
  holds, variable_set_add, names_variable, is_function, add_names, collect_node, collect_from,
  collect_variables,
}

-- A name stands in a list.
abbrev pub Held : Name → List Name → Type 0
Held x [] = ⊥
Held x (n ∷ names) = (n ≡ x) ⊎ Held x names

-- No name twice.
abbrev pub Distinct : List Name → Type 0
Distinct [] = Unit
Distinct (n ∷ names) = (¬ Held n names) × Distinct names

pub holds_iff : (names : List Name) (x : Name) → (holds names x ≡ true) ↔ Held x names
unfolding holds
holds_iff [] x = (λ h. cc, λ h. absurd h)
holds_iff (n ∷ names) x = (
  λ h. elim (Bool-cases (name_eq n x)) [
    | inl e ↦ inl ((name_eq_iff n x).0 e)
    | inr other ↦ inr ((holds_iff names x).0 (ground arith))
  ],
  λ h. elim h [
    | inl e ↦ let k = (name_eq_iff n x).1 e in rw k refl
    | inr later ↦ let k = (holds_iff names x).1 later in ground arith
  ],
)

-- A node names a variable: by a read, a declaration, an assignment, or as a parameter.
pub data Mentions (n : Node) (x : Name) : Type 0 where
  by_read : n.opcode ≡ variable → n.value ≡ text (some x) → Mentions n x
  by_declaration : n.opcode ≡ variable_decl → n.value ≡ text (some x) → Mentions n x
  by_assignment : n.opcode ≡ reassign → n.value ≡ text (some x) → Mentions n x
  by_parameter : n.opcode ≡ function → Held x n.names → Mentions n x

abbrev pub Mentioned : Name → List Node → Type 0
Mentioned x [] = ⊥
Mentioned x (n ∷ ns) = Mentions n x ⊎ Mentioned x ns

-- The names of a set, and no others but those of `More`.
abbrev Extends : List Name → (Name → Type 0) → List Name → Type 0
Extends names More names' = (x : Name) → Held x names' ↔ (Held x names ⊎ More x)

Held-snoc : (names : List Name) (n x : Name) → Held x (names ++ n ∷ []) ↔ (Held x names ⊎ (n ≡ x))
Held-snoc [] n x = (
  λ h. elim h [ inl e ↦ inr e | inr never ↦ absurd never ],
  λ h. elim h [ inl never ↦ absurd never | inr e ↦ inl e ],
)
Held-snoc (m ∷ names) n x = (
  λ h. elim h [
    | inl e ↦ inl (inl e)
    | inr later ↦ elim ((Held-snoc names n x).0 later) [ inl old ↦ inl (inr old) | inr e ↦ inr e ]
  ],
  λ h. elim h [
    | inl old ↦ elim old [ inl e ↦ inl e | inr later ↦ inr ((Held-snoc names n x).1 (inl later)) ]
    | inr e ↦ inr ((Held-snoc names n x).1 (inr e))
  ],
)

Distinct-snoc :
    (names : List Name) (n : Name) → Distinct names → ¬ Held n names → Distinct (names ++ n ∷ [])
Distinct-snoc [] n d h = (λ never. never, tt)
Distinct-snoc (m ∷ names) n d h = (
  λ again. elim ((Held-snoc names n m).0 again) [ inl old ↦ d.0 old | inr e ↦ h (inl (sym e)) ],
  Distinct-snoc names n d.1 (λ later. h (inr later)),
)

variable_set_add-Distinct :
    (names : List Name) (o : Option Name) → Distinct names → Distinct (variable_set_add names o)
unfolding variable_set_add
variable_set_add-Distinct names none d = d
variable_set_add-Distinct names (some n) d = elim (Bool-cases (holds names n)) [
  | inl old ↦ rw old d
  | inr new ↦ rw new (Distinct-snoc names n d (λ h. let k = (holds_iff names n).1 h in cc))
]

variable_set_add-Extends :
    (names : List Name) (o : Option Name)
    → Extends names (λ x. o ≡ some x) (variable_set_add names o)
unfolding variable_set_add
variable_set_add-Extends names none x = (λ h. inl h, λ h. elim h [ inl old ↦ old | inr e ↦ cc ])
variable_set_add-Extends names (some n) x = elim (Bool-cases (holds names n)) [
  | inl old ↦ rw old (
    λ h. inl h,
    λ h. elim h [
      | inl held ↦ held
      | inr e ↦ let same : n ≡ x = cc in subst (λ y. Held y names) same ((holds_iff names n).0 old)
    ],
  )
  | inr new ↦ rw new (
    λ h. elim ((Held-snoc names n x).0 h) [ inl held ↦ inl held | inr e ↦ inr (ap some e) ],
    λ h. (Held-snoc names n x).1 (elim h [ inl held ↦ inl held | inr e ↦ inr cc ]),
  )
]

add_names-Extends : (names ps : List Name) → Extends names (λ x. Held x ps) (add_names names ps)
add_names-Extends names [] x =
    (λ h. inl h, λ h. elim h [ inl old ↦ old | inr never ↦ absurd never ])
add_names-Extends names (p ∷ ps) x =
    let rest = add_names-Extends (variable_set_add names (some p)) ps x in
    let one = variable_set_add-Extends names (some p) x in
    (
      λ h. elim (rest.0 h) [
        | inr later ↦ inr (inr later)
        | inl before ↦ elim (one.0 before) [ inl old ↦ inl old | inr e ↦ inr (inl cc) ]
      ],
      λ h. rest.1 (elim h [
        | inl old ↦ inl (one.1 (inl old))
        | inr new ↦ elim new [ inl e ↦ inl (one.1 (inr (ap some e))) | inr later ↦ inr later ]
      ]),
    )

pub text_of_iff :
    (v : Payload) (x : Name)
    → (elim v as (λ w. Option Name) [ text t ↦ t | _ ↦ none ] ≡ some x) ↔ (v ≡ text (some x))
text_of_iff (text o) x = (λ e. ap text e, λ e. cc)
text_of_iff (integer z) x = (λ e. cc, λ e. cc)
text_of_iff (boolean b) x = (λ e. cc, λ e. cc)
text_of_iff (floating w) x = (λ e. cc, λ e. cc)

names_variable-cases :
    (o : Opcode) → names_variable o ≡ true → (o ≡ variable) ⊎ (o ≡ variable_decl) ⊎ (o ≡ reassign)
names_variable-cases variable h = inl refl
names_variable-cases variable_decl h = inr (inl refl)
names_variable-cases reassign h = inr (inr refl)
names_variable-cases _ h = cc

is_function-eq : (o : Opcode) → is_function o ≡ true → o ≡ function
is_function-eq function h = refl
is_function-eq _ h = cc

-- The text of a node that names a variable, as the code reads it.
ByText : Node → Name → Type 0
ByText n x = (names_variable n.opcode ≡ true) × (text_of n ≡ some x)

ByText-Mentions : (n : Node) (x : Name) → ByText n x → Mentions n x
unfolding text_of ByText
ByText-Mentions n x (v, e) =
    let held = (text_of_iff n.value x).0 e in
    elim (names_variable-cases n.opcode v) [
      | inl o ↦ by_read o held
      | inr (inl o) ↦ by_declaration o held
      | inr (inr o) ↦ by_assignment o held
    ]

Mentions-cases :
    (n : Node) (x : Name)
    → Mentions n x
    → ByText n x ⊎ (is_function n.opcode ≡ true) × Held x n.names
unfolding text_of ByText
Mentions-cases n x (by_read o e) = inl (rw o refl, (text_of_iff n.value x).1 e)
Mentions-cases n x (by_declaration o e) = inl (rw o refl, (text_of_iff n.value x).1 e)
Mentions-cases n x (by_assignment o e) = inl (rw o refl, (text_of_iff n.value x).1 e)
Mentions-cases n x (by_parameter o h) = inr (rw o refl, h)

with_text-Extends :
    (names : List Name) (n : Node)
    → Extends names
        (ByText n)
        (if names_variable n.opcode then variable_set_add names (text_of n) else names)
unfolding ByText
with_text-Extends names n x = elim (Bool-cases (names_variable n.opcode)) [
  | inl on ↦
      let one = variable_set_add-Extends names (text_of n) x in
      rw on (
        λ h. elim (one.0 h) [ inl old ↦ inl old | inr e ↦ inr (refl, e) ],
        λ h. one.1 (elim h [ inl old ↦ inl old | inr new ↦ inr new.1 ]),
      )
  | inr off ↦ rw off (λ h. inl h, λ h. elim h [ inl old ↦ old | inr new ↦ let k = new.0 in cc ])
]

collect_node-Extends :
    (names : List Name) (n : Node) → Extends names (Mentions n) (collect_node names n)
unfolding collect_node
collect_node-Extends names n x =
    let named = if names_variable n.opcode then variable_set_add names (text_of n) else names in
    let first = with_text-Extends names n x in
    let params = add_names-Extends named n.names x in
    elim (Bool-cases (is_function n.opcode)) [
      | inl on ↦ rw on (
        λ h. elim (params.0 h) [
          | inr p ↦ inr (by_parameter (is_function-eq n.opcode on) p)
          | inl before ↦ elim (first.0 before) [
            | inl old ↦ inl old
            | inr t ↦ inr (ByText-Mentions n x t)
          ]
        ],
        λ h. params.1 (elim h [
          | inl old ↦ inl (first.1 (inl old))
          | inr m ↦ elim (Mentions-cases n x m) [ inl t ↦ inl (first.1 (inr t)) | inr p ↦ inr p.1 ]
        ]),
      )
      | inr off ↦ rw off (
        λ h. elim (first.0 h) [ inl old ↦ inl old | inr t ↦ inr (ByText-Mentions n x t) ],
        λ h. first.1 (elim h [
          | inl old ↦ inl old
          | inr m ↦ elim (Mentions-cases n x m) [ inl t ↦ inr t | inr p ↦ let k = p.0 in absurd cc ]
        ]),
      )
    ]

collect_from-Extends :
    (names : List Name) (ns : List Node)
    → Extends names (λ x. Mentioned x ns) (collect_from names ns)
unfolding collect_from
collect_from-Extends names [] x =
    (λ h. inl h, λ h. elim h [ inl old ↦ old | inr never ↦ absurd never ])
collect_from-Extends names (n ∷ ns) x =
    let rest = collect_from-Extends (collect_node names n) ns x in
    let one = collect_node-Extends names n x in
    (
      λ h. elim (rest.0 h) [
        | inr later ↦ inr (inr later)
        | inl before ↦ elim (one.0 before) [ inl old ↦ inl old | inr m ↦ inr (inl m) ]
      ],
      λ h. rest.1 (elim h [
        | inl old ↦ inl (one.1 (inl old))
        | inr new ↦ elim new [ inl m ↦ inl (one.1 (inr m)) | inr later ↦ inr later ]
      ]),
    )

add_names-Distinct : (names ps : List Name) → Distinct names → Distinct (add_names names ps)
add_names-Distinct names [] d = d
add_names-Distinct names (p ∷ ps) d =
    add_names-Distinct (variable_set_add names (some p)) ps
      (variable_set_add-Distinct names (some p) d)

collect_node-Distinct :
    (names : List Name) (n : Node) → Distinct names → Distinct (collect_node names n)
unfolding collect_node
collect_node-Distinct names n d =
    let w =
      if_rule Distinct (names_variable n.opcode)
        (λ _. variable_set_add-Distinct names (text_of n) d) (λ _. d) in
    if_rule Distinct (is_function n.opcode) (λ _. add_names-Distinct _ n.names w) (λ _. w)

collect_from-Distinct :
    (names : List Name) (ns : List Node) → Distinct names → Distinct (collect_from names ns)
unfolding collect_from
collect_from-Distinct names [] d = d
collect_from-Distinct names (n ∷ ns) d =
    collect_from-Distinct (collect_node names n) ns (collect_node-Distinct names n d)

-- The variables of a program are collected without repetition, and they are exactly the names that some
-- node reads, declares or assigns as a variable or has as a parameter.
pub collect_variables-Distinct :
    (ir : Program)
    → Distinct (collect_variables ir)
      × ((x : Name) → Held x (collect_variables ir) ↔ Mentioned x ir.nodes)
unfolding collect_variables
collect_variables-Distinct ir = (
  collect_from-Distinct [] ir.nodes tt,
  λ x.
      let all = collect_from-Extends [] ir.nodes x in
      (λ h. elim (all.0 h) [ inl never ↦ absurd never | inr m ↦ m ], λ m. all.1 (inr m)),
)
