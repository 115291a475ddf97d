-- ===== src/Ir/Order.antt =====
-- The order in which the walk of `vnt_ir_validate` in src/compiler/ir.c pushes the nodes.
use vnt.Base.{
  ℕ, ◌+◌, ◌≤◌, ◌<◌, ◌≡◌, refl, ◌∙◌, subst, ◌≢◌, ◌⊎◌, inl, inr, true, List, [], ◌∷◌, arith, ◌==◌,
  if◌then◌else◌, length, All,
}
use vnt.Ir.Node.{Program, no_node, node}
use vnt.Ir.Validate.{Visited}
use vnt.Ir.Walk.{In, Pushed, end, push, Fresh, Pushed-Fresh}

-- When each node was pushed.
abbrev pub Times : Type 0
Times = ℕ → ℕ

abbrev stamp : Times → ℕ → ℕ → Times
stamp time c t d = if d == c then t else time d

abbrev pub Seen : Visited → List ℕ → ℕ → Type 0
Seen visited stack d = (visited d ≡ true) ⊎ In d stack

pub All-In : (c d : ℕ) (s : List ℕ) → All (λ x. x ≢ c) s → In d s → d ≢ c
All-In c d [] a m = elim m [ ]
All-In c d (x ∷ s) a (inl e) = λ f. a.0 (cc)
All-In c d (x ∷ s) a (inr m) = All-In c d s a.1 m

module _ (ir : Program) where
  abbrev next : ℕ → ℕ
  next d = (node ir d).next_sibling

  -- What pushing the chain from `c` on does to the times.
  pub record Stamped (visited : Visited) (c : ℕ) (s s' : List ℕ) (time : Times) (count : ℕ)
      (time' : Times) (count' : ℕ) : Type 0 where
    pub kept : (d : ℕ) → Seen visited s d → time' d ≡ time d
    pub stays : (d : ℕ) → In d s → In d s'
    pub early : (d : ℕ) → Seen visited s' d → time' d < count'
    pub head : c ≢ no_node → In c s' × (count ≤ time' c)
    pub linked :
        (d : ℕ)
        → In d s'
        → In d s ⊎ (next d ≢ no_node → In (next d) s' × (time' d < time' (next d)))
    pub counted : count' + length s ≡ count + length s'

  pub Pushed-Stamped :
      {visited : Visited} {c : ℕ} {s s' : List ℕ}
      → Pushed ir visited c s s'
      → Fresh ir visited s'
      → (time : Times) (count : ℕ) → ((d : ℕ) → Seen visited s d → time d < count)
      → (time' : Times) × (count' : ℕ) × Stamped visited c s s' time count time' count'
  Pushed-Stamped (end e) f time count early = (
    time,
    count,
    record {
      kept = λ d h. refl;
      stays = λ d h. h;
      early = early;
      head = λ ne. absurd (ne e);
      linked = λ d h. inl h;
      counted = refl;
    },
  )
  Pushed-Stamped {visited} {c} {s} {s'} (push ne v p) f time count early =
      let top = Pushed-Fresh ir p f in
      let other : (d : ℕ) → Seen visited s d → d ≢ c = λ d h. elim h [
        | inl on ↦ λ e. let at : visited c ≡ true = subst (λ x. visited x ≡ true) e on in cc
        | inr m ↦ All-In c d s top.1 m
      ] in
      let old : (d : ℕ) → Seen visited s d → stamp time c count d ≡ time d =
        λ d h. let n = other d h in ground arith in
      let new : stamp time c count c ≡ count = ground arith in
      let early1 : (d : ℕ) → Seen visited (c ∷ s) d → stamp time c count d < count + 1 = λ d h.
        elim h [
          | inl on ↦ let a = early d (inl on) in ground arith
          | inr m ↦ elim m [
            | inl e ↦ ground arith
            | inr m ↦ let a = early d (inr m) in ground arith
          ]
        ] in
      let (time', count', st) = Pushed-Stamped p f (stamp time c count) (count + 1) early1 in
      let at_c : time' c ≡ count = st.kept c (inr (inl refl)) ∙ new in
      (
        time',
        count',
        record {
          kept = λ d h. st.kept d (elim h [ inl on ↦ inl on | inr m ↦ inr (inr m) ]) ∙ old d h;
          stays = λ d h. st.stays d (inr h);
          early = st.early;
          head = λ n. (st.stays c (inl refl), omega (arith, at_c));
          linked = λ d h. elim (st.linked d h) [
            | inl m ↦ elim m [
              | inl e ↦ inr (rw e (λ n. let k = st.head n in (k.0, omega (arith, at_c, k.1))))
              | inr m ↦ inl m
            ]
            | inr good ↦ inr good
          ];
          counted = omega (arith, st.counted);
        },
      )
