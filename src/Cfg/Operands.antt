-- ===== src/Cfg/Operands.antt =====
-- What child_role of src/compiler/cfg.c finds: the first child of a role.
use vnt.Base.{
  ℕ, zero, suc, ◌<◌, ◌≡◌, refl, sym, subst, ◌≢◌, inl, inr, true, false, arith, leb, ◌==◌, ==_iff,
  Bool-cases,
}
use vnt.Ir.Node.{EdgeRole, Program, no_node, node, node_count, same_role, same_role-eq, role_index}
use vnt.Ir.Forest.{IsForest}
use vnt.Cfg.Effects.{child_role, child_role_from}
use vnt.Cfg.Access.{FirstChild, at, behind, Operand}

same_role_refl : (a : EdgeRole) → same_role a a ≡ true
unfolding same_role
same_role_refl a = (==_iff (role_index a) (role_index a)).1 refl

module _ (ir : Program) where
  child_role_from-FirstChild :
      (role : EdgeRole) (fuel c d : ℕ)
      → child_role_from ir role fuel c ≡ d
      → d ≢ no_node
      → FirstChild ir role c d
  unfolding child_role_from
  child_role_from-FirstChild role zero c d h ne = absurd (ne (sym h))
  child_role_from-FirstChild role (suc fuel) c d h ne = elim (Bool-cases (c == no_node)) [
    | inl end ↦ absurd (ne (sym (rw end at h)))
    | inr on ↦
        let n : c ≢ no_node = ground arith in
        elim (Bool-cases (same_role (node ir c).role role)) [
          | inl found ↦
              let e : c ≡ d = rw (on, found) at h in
              subst (FirstChild ir role c) e (at n (same_role-eq _ role found))
          | inr other ↦
              behind n
                (λ e.
                  let k = same_role_refl role in
                  let k' : same_role (node ir c).role role ≡ true =
                    subst (λ r. same_role r role ≡ true) (sym e) k in
                  cc)
                (child_role_from-FirstChild role fuel (node ir c).next_sibling d
                  (rw (on, other) at h) ne)
        ]
  ]

  module _ (t : IsForest ir) where
    FirstChild-child_role_from :
        (role : EdgeRole) (fuel c d : ℕ)
        → FirstChild ir role c d
        → t.rank c < fuel
        → (child_role_from ir role fuel c ≡ d) × (d ≢ no_node)
    unfolding child_role_from
    FirstChild-child_role_from role zero c d f h = absurd (omega arith)
    FirstChild-child_role_from role (suc fuel) c d (at ne e) h =
        let on : (c == no_node) ≡ false = ground arith in
        let found : same_role (node ir c).role role ≡ true =
          subst (λ r. same_role r role ≡ true) (sym e) (same_role_refl role) in
        (rw (on, found) refl, ne)
    FirstChild-child_role_from role (suc fuel) c d (behind ne other f) h =
        let on : (c == no_node) ≡ false = ground arith in
        elim (Bool-cases (same_role (node ir c).role role)) [
          | inl found ↦ absurd (other (same_role-eq _ role found))
          | inr miss ↦
              let next = (node ir c).next_sibling in
              let rest =
                FirstChild-child_role_from role fuel next d f (elim (Bool-cases (next == no_node)) [
                  | inl end ↦ absurd (chain_end role next d f ((==_iff next no_node).0 end))
                  | inr more ↦ let lower = t.sibling c (ground arith) in omega arith
                ]) in
              (rw (on, miss) rest.0, rest.1)
        ]
      where
        chain_end : (role : EdgeRole) (c d : ℕ) → FirstChild ir role c d → c ≢ no_node
        chain_end role c d (at ne e) = ne
        chain_end role c d (behind ne other f) = ne

    pub child_role-Operand :
        (role : EdgeRole) (i : ℕ)
        → child_role ir i role ≢ no_node
        → Operand ir role i (child_role ir i role)
    unfolding child_role
    child_role-Operand role i ne = elim (Bool-cases (leb (node_count ir) i)) [
      | inl outside ↦ absurd (ne (rw outside refl))
      | inr inside ↦
          let e : child_role_from ir role (suc (node_count ir)) (node ir i).first_child ≢ no_node =
            rw inside at ne in
          rw inside (ground arith, child_role_from-FirstChild role _ _ _ refl e)
    ]

    pub Operand-child_role :
        (role : EdgeRole) (i d : ℕ)
        → Operand ir role i d
        → (child_role ir i role ≡ d) × (d ≢ no_node)
    unfolding child_role
    Operand-child_role role i d (lt, f) =
        let inside : leb (node_count ir) i ≡ false = ground arith in
        rw inside (
          FirstChild-child_role_from role (suc (node_count ir)) _ d f
            (omega (arith, t.bound (node ir i).first_child)))
