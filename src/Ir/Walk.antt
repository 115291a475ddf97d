-- ===== src/Ir/Walk.antt =====
-- The walk of `vnt_ir_validate` in src/compiler/ir.c, as a relation: what it pushes and visits.
use vnt.Base.{
  ℕ, zero, suc, ◌+◌, ◌<◌, ◌≡◌, ◌≢◌, ◌⊎◌, inl, inr, false, ◌||◌, some, List, [], ◌∷◌, arith, leb,
  ◌==◌, ==_iff, Bool-cases, Option-cases, All,
}
use vnt.Ir.Node.{Program, no_node, node, node_count}
use vnt.Ir.Validate.{Visited, visit, push_children, walk}

abbrev pub In : ℕ → List ℕ → Type 0
In d [] = ⊥
In d (c ∷ s) = (d ≡ c) ⊎ In d s

module _ (ir : Program) where
  -- The chain of siblings from `c` on is pushed onto the stack, none of it visited.
  pub data Pushed (visited : Visited) : ℕ → List ℕ → List ℕ → Type 0 where
    end : {c : ℕ} {stack : List ℕ} → c ≡ no_node → Pushed visited c stack stack
    push :
        {c : ℕ} {stack stack' : List ℕ}
        → c ≢ no_node
        → visited c ≡ false
        → Pushed visited (node ir c).next_sibling (c ∷ stack) stack'
        → Pushed visited c stack stack'

  -- A walk that succeeds, from `reached` nodes to `total`.
  pub data Walked : Visited → List ℕ → ℕ → ℕ → Type 0 where
    done : {visited : Visited} {total : ℕ} → Walked visited [] total total
    pop :
        {visited : Visited} {current : ℕ} {stack stack' : List ℕ} {reached total : ℕ}
        → current < node_count ir
        → visited current ≡ false
        → Pushed (visit visited current) (node ir current).first_child stack stack'
        → Walked (visit visited current) stack' (reached + 1) total
        → Walked visited (current ∷ stack) reached total

  push_children-Pushed :
      (visited : Visited) (fuel c : ℕ) (stack stack' : List ℕ)
      → push_children ir visited fuel c stack ≡ some stack'
      → Pushed visited c stack stack'
  unfolding push_children
  push_children-Pushed visited zero c stack stack' h = cc
  push_children-Pushed visited (suc fuel) c stack stack' h = elim (Bool-cases (c == no_node)) [
    | inl at_end ↦
        let e : stack ≡ stack' = ground arith in rw (← e) (end ((==_iff c no_node).0 at_end))
    | inr on ↦ push (ground arith) (ground arith) (
        push_children-Pushed visited fuel (node ir c).next_sibling (c ∷ stack) stack'
          (ground arith))
  ]

  pub walk-Walked :
      (fuel : ℕ) (visited : Visited) (stack : List ℕ) (reached total : ℕ)
      → walk ir fuel visited stack reached ≡ some total
      → Walked visited stack reached total
  unfolding walk
  walk-Walked zero visited stack reached total h = cc
  walk-Walked (suc fuel) visited [] reached total h = let e : reached ≡ total = cc in rw e done
  walk-Walked (suc fuel) visited (current ∷ stack) reached total h =
      let pushed =
        push_children ir (visit visited current) (suc (suc (node_count ir)))
          (node ir current).first_child stack in
      elim (Bool-cases (leb (node_count ir) current || visited current)) [
        | inl refused ↦ absurd (ground arith)
        | inr taken ↦ elim (Option-cases pushed) [
          | inl none_pushed ↦ absurd (ground arith)
          | inr (stack', e) ↦
              pop (ground arith) (ground arith)
                (push_children-Pushed (visit visited current) _ _ stack stack' e)
                (walk-Walked fuel (visit visited current) stack' (reached + 1) total
                  (rw (taken, e, walk) at h))
        ]
      ]

  -- Nothing on the stack is visited, or stands there twice.
  abbrev pub Fresh : Visited → List ℕ → Type 0
  Fresh visited [] = Unit
  Fresh visited (c ∷ s) = (visited c ≡ false) × All (λ d. d ≢ c) s × Fresh visited s

  pub Pushed-Fresh :
      {visited : Visited} {c : ℕ} {stack stack' : List ℕ}
      → Pushed visited c stack stack'
      → Fresh visited stack'
      → Fresh visited stack
  Pushed-Fresh (end e) f = f
  Pushed-Fresh (push ne v p) f = (Pushed-Fresh p f).2

  Fresh-visit :
      (visited : Visited) (c : ℕ) (stack : List ℕ)
      → Fresh (visit visited c) stack
      → All (λ d. d ≢ c) stack × Fresh visited stack
  Fresh-visit visited c [] f = (tt, tt)
  Fresh-visit visited c (d ∷ stack) f =
      let rest = Fresh-visit visited c stack f.2 in
      let v = f.0 in
      let ne : d ≢ c = ground arith in
      let off : visited d ≡ false = ground arith in ((ne, rest.0), (off, f.1, rest.1))

  pub Walked-Fresh :
      {visited : Visited} {stack : List ℕ} {reached total : ℕ}
      → Walked visited stack reached total
      → Fresh visited stack
  Walked-Fresh done = tt
  Walked-Fresh (pop {visited} {current} {stack} lt v p w) =
      let f = Fresh-visit visited current stack (Pushed-Fresh p (Walked-Fresh w)) in (v, f.0, f.1)
