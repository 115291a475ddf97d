-- ===== src/Parser/Runs.antt =====
-- What a run of a parse function of src/parser keeps, and the rules for composing runs.
use vnt.Base.{
  ℕ, ◌+◌, ◌≤◌, ◌<◌, ◌≡◌, refl, ap, ◌∙◌, ◌≢◌, inl, inr, Bool, true, false, arith, ltb, leb, ==_iff,
  Bool-cases, if_rule, length,
}
use vnt.Lexer.State.{TokenType, Lexer, eof, room}
use vnt.Lexer.Room.{room-lexer_next, lexer_next-Within}
use vnt.Lexer.Tokens.{lexer_next-Progress}
use vnt.Parser.State.{
  Parser, max_nesting, max_expression_operators, parser_enter_nesting, parser_leave_nesting,
  parser_note_expression_operator, parser_advance, parser_check, parser_consume, parser_init,
  type_index,
}
use vnt.Parser.Expression.{
  Outcome, ok, failed, out_of_fuel, Parse, continue, demand, note_operator, consume, expect,
}

-- The bytes that the lexer has left behind the current token.
abbrev pub left : Parser → ℕ
left p = room p.lexer

-- The lexer may be called: it has not passed the end, unless the end is the current token.
pub record IsReady (p : Parser) : Type 0 where
  pub inside : p.current.type ≢ eof → p.lexer.current ≤ length p.lexer.source

-- The limits of include/vnt/parser.h.
pub record IsBounded (p : Parser) : Type 0 where
  pub nesting : p.nesting_depth ≤ max_nesting
  pub operators : p.expression_operator_count ≤ max_expression_operators

-- The lexer has read no further than the NUL.
pub record IsWithin (p : Parser) : Type 0 where
  pub cursor : p.lexer.current ≤ length p.lexer.source + 1

-- Between two states of a balanced run: the depths are the same again, a failure of the nesting
-- stays, the limits are kept, and the lexer only moves on.
pub record Keeps (p q : Parser) : Type 0 where
  pub depth : q.nesting_depth ≡ p.nesting_depth
  pub expression_depth : q.expression_depth ≡ p.expression_depth
  pub failure : p.nesting_failed ≡ true → q.nesting_failed ≡ true
  pub bounded : IsBounded p → IsBounded q
  pub ready : IsReady p → IsReady q
  pub onward : left q ≤ left p
  pub source : q.lexer.source ≡ p.lexer.source
  pub within : IsWithin p → IsWithin q

pub Keeps-refl : (p : Parser) → Keeps p p
Keeps-refl p = record {
  depth = refl;
  expression_depth = refl;
  failure = λ h. h;
  bounded = λ h. h;
  ready = λ h. h;
  onward = omega arith;
  source = refl;
  within = λ h. h;
}

pub Keeps-trans : {p q r : Parser} → Keeps p q → Keeps q r → Keeps p r
Keeps-trans f g = record {
  depth = g.depth ∙ f.depth;
  expression_depth = g.expression_depth ∙ f.expression_depth;
  failure = λ h. g.failure (f.failure h);
  bounded = λ h. g.bounded (f.bounded h);
  ready = λ h. g.ready (f.ready h);
  onward = omega (arith, f.onward, g.onward);
  source = g.source ∙ f.source;
  within = λ h. g.within (f.within h);
}

-- A run from `p`: it is balanced, it is not cut short, and with a node it has consumed `k` bytes or more.
pub record Runs {A : Type 0} (k : ℕ) (p : Parser) (r : Outcome A × Parser) : Type 0 where
  pub keeps : Keeps p r.1
  pub ends : r.0 ≢ out_of_fuel
  pub consumes : (a : A) → r.0 ≡ ok a → left r.1 + k ≤ left p

module _ {A : Type 0} where
  pub Runs-ok :
      {k : ℕ} {p q : Parser} (a : A) → Keeps p q → left q + k ≤ left p → Runs k p (ok a, q)
  Runs-ok a f h = record { keeps = f; ends = λ e. cc; consumes = λ b e. h }

  pub Runs-failed : (k : ℕ) {p q : Parser} → Keeps p q → Runs {A = A} k p (failed, q)
  Runs-failed k f = record { keeps = f; ends = λ e. cc; consumes = λ b e. cc }

  pub Runs-weaken :
      {k : ℕ} {p : Parser} {r : Outcome A × Parser} (j : ℕ) → j ≤ k → Runs k p r → Runs j p r
  Runs-weaken j h x = record {
    keeps = x.keeps;
    ends = x.ends;
    consumes = λ a e. omega (arith, x.consumes a e);
  }

  -- A run from a later state, seen from an earlier one.
  pub Runs-after :
      {k : ℕ} {p q : Parser} {r : Outcome A × Parser} (j : ℕ)
      → Keeps p q
      → left q + j ≤ left p
      → Runs k q r
      → Runs (k + j) p r
  Runs-after j f h x = record {
    keeps = Keeps-trans f x.keeps;
    ends = x.ends;
    consumes = λ a e. omega (arith, x.consumes a e);
  }

-- A run that goes on with `f` behind the first run.
pub Runs-continue :
    {A B : Type 0} {k : ℕ} {p : Parser} (j : ℕ) (r : Outcome A × Parser) (f : A → Parse B)
    → Runs k p r
    → ((a : A) (q : Parser) → Keeps p q → left q + k ≤ left p → Runs j q (f a q))
    → Runs (j + k) p (continue r.0 r.1 f)
Runs-continue j (ok a, q) f y rest =
    let h = y.consumes a refl in Runs-after _ y.keeps h (rest a q y.keeps h)
Runs-continue j (failed, q) f y rest = Runs-failed _ y.keeps
Runs-continue j (out_of_fuel, q) f y rest = absurd (y.ends refl)

pub parser_advance_onward :
    (p : Parser) → IsReady p → p.current.type ≢ eof → left (parser_advance p) + 1 ≤ left p
unfolding parser_advance
parser_advance_onward p r ne = room-lexer_next p.lexer (r.inside ne)

pub parser_advance-Keeps :
    (p : Parser) → IsReady p → p.current.type ≢ eof → Keeps p (parser_advance p)
unfolding parser_advance
parser_advance-Keeps p r ne = record {
  depth = refl;
  expression_depth = refl;
  failure = λ h. h;
  bounded = λ h. record { nesting = h.nesting; operators = h.operators };
  ready = λ h. record { inside = λ more. (lexer_next-Progress p.lexer (r.inside ne) more).bound };
  source = (lexer_next-Within p.lexer (r.inside ne)).0;
  within = λ h.
      let w = lexer_next-Within p.lexer (r.inside ne) in
      record { cursor = omega (arith, w.1, ap length w.0) };
  onward = omega (arith, parser_advance_onward p r ne);
}

-- A token that is checked for, and is not the end of the input, may be consumed.
pub parser_check-ne-eof :
    (p : Parser) (t : TokenType) → 0 < type_index t → parser_check p t ≡ true → p.current.type ≢ eof
unfolding parser_check
parser_check-ne-eof p t pos h e =
    let at : type_index p.current.type ≡ type_index t = (==_iff _ _).0 h in
    let zero_at : type_index p.current.type ≡ 0 = unfold type_index in rw e in absurd (omega arith)

module _ (p : Parser) (r : IsReady p) where
  pub advance-Runs : p.current.type ≢ eof → Runs {A = Unit {0}} 1 p (ok tt, parser_advance p)
  advance-Runs ne = Runs-ok tt (parser_advance-Keeps p r ne) (parser_advance_onward p r ne)

  pub expect-Runs : (t : TokenType) → 0 < type_index t → Runs 1 p (expect t p)
  expect-Runs t pos =
      if_rule (Runs 1 p) (parser_check p t) (λ h. advance-Runs (parser_check-ne-eof p t pos h))
        (λ _. Runs-failed 1 (Keeps-refl p))

  pub consume-Runs : (t : TokenType) → 0 < type_index t → Runs 1 p (consume t p)
  unfolding parser_consume
  consume-Runs t pos = elim (Bool-cases (parser_check p t)) [
    | inl h ↦ rw h (advance-Runs (parser_check-ne-eof p t pos h))
    | inr h ↦ rw h (Runs-failed 1 (Keeps-refl p))
  ]

-- What noting an operator leaves: a balanced state at the same token.
pub record IsNoted (p : Parser) (r : Bool × Parser) : Type 0 where
  pub keeps : Keeps p r.1
  pub current : r.1.current ≡ p.current

pub parser_note_expression_operator-IsNoted :
    (p : Parser) → IsNoted p (parser_note_expression_operator p)
unfolding parser_note_expression_operator
parser_note_expression_operator-IsNoted p =
    if_rule (IsNoted p) p.nesting_failed (λ gone. record { keeps = Keeps-refl p; current = refl })
      λ fine.
        if_rule (IsNoted p) (leb max_expression_operators p.expression_operator_count)
          (λ full. record {
            keeps = record {
              depth = refl;
              expression_depth = refl;
              failure = λ h. refl;
              bounded = λ h. record { nesting = h.nesting; operators = h.operators };
              ready = λ h. record { inside = h.inside };
              source = refl;
              within = λ h. record { cursor = h.cursor };
              onward = omega arith;
            };
            current = refl;
          })
          λ below. record {
            keeps = record {
              depth = refl;
              expression_depth = refl;
              failure = λ h. h;
              bounded = λ h. record { nesting = h.nesting; operators = ground arith };
              ready = λ h. record { inside = h.inside };
              source = refl;
              within = λ h. record { cursor = h.cursor };
              onward = omega arith;
            };
            current = refl;
          }

-- An operator noted, and then `f` at the same token.
pub note_operator-then :
    {B : Type 0} {k : ℕ} (p : Parser) (f : Unit {0} → Parse B)
    → ((q : Parser) → Keeps p q → q.current ≡ p.current → Runs k q (f tt q))
    → Runs k p (continue (note_operator p).0 (note_operator p).1 f)
note_operator-then {B} {k} p f rest =
    go (parser_note_expression_operator p) (parser_note_expression_operator-IsNoted p)
  where
    go : (r : Bool × Parser) → IsNoted p r → Runs k p (continue (demand r).0 (demand r).1 f)
    go (true, q) h =
        Runs-weaken _ (omega arith)
          (Runs-after 0 h.keeps (omega (arith, h.keeps.onward)) (rest q h.keeps h.current))
    go (false, q) h = Runs-failed _ h.keeps

-- What entering a level of nesting leaves.
abbrev pub Entered : Parser → Bool × Parser → Type 0
Entered p (true, q) =
    (q ≡ record p { nesting_depth = p.nesting_depth + 1 }) × (p.nesting_depth < max_nesting)
Entered p (false, q) = Keeps p q

pub parser_enter_nesting-Entered : (p : Parser) → Entered p (parser_enter_nesting p)
unfolding parser_enter_nesting
parser_enter_nesting-Entered p =
    if_rule (Entered p) p.nesting_failed (λ gone. Keeps-refl p)
      λ fine.
        if_rule (Entered p) (leb max_nesting p.nesting_depth)
          (λ full. record {
            depth = refl;
            expression_depth = refl;
            failure = λ h. refl;
            bounded = λ h. record { nesting = h.nesting; operators = h.operators };
            ready = λ h. record { inside = h.inside };
            source = refl;
            within = λ h. record { cursor = h.cursor };
            onward = omega arith;
          })
          λ below. (refl, ground arith)

-- Leaving a level after a balanced run inside it is balanced.
pub parser_leave_nesting-Keeps :
    (p q : Parser)
    → p.nesting_depth < max_nesting
    → Keeps (record p { nesting_depth = p.nesting_depth + 1 }) q
    → Keeps p (parser_leave_nesting q)
unfolding parser_leave_nesting
parser_leave_nesting-Keeps p q lt k =
    let depth = k.depth in
    if_rule (Keeps p) (ltb 0 q.nesting_depth)
      (λ on. record {
        depth = omega arith;
        expression_depth = k.expression_depth;
        failure = k.failure;
        bounded = λ h.
            let b = k.bounded (record { nesting = omega arith; operators = h.operators }) in
            record { nesting = omega (arith, h.nesting); operators = b.operators };
        ready = λ h. record { inside = (k.ready (record { inside = h.inside })).inside };
        onward = k.onward;
        source = k.source;
        within = λ h. record { cursor = (k.within (record { cursor = h.cursor })).cursor };
      })
      λ off. absurd (ground arith)

-- The parser as it starts on a source: the first token is read.
pub parser_init-IsReady : (l : Lexer) → l.current ≤ length l.source → IsReady (parser_init l)
unfolding parser_init parser_advance
parser_init-IsReady l b = record { inside = λ more. (lexer_next-Progress l b more).bound }

pub left-parser_init : (l : Lexer) → l.current ≤ length l.source → left (parser_init l) + 1 ≤ room l
unfolding parser_init parser_advance
left-parser_init l b = room-lexer_next l b

pub parser_init-IsWithin : (l : Lexer) → l.current ≤ length l.source → IsWithin (parser_init l)
unfolding parser_init parser_advance
parser_init-IsWithin l b =
    let w = lexer_next-Within l b in record { cursor = omega (arith, w.1, ap length w.0) }
