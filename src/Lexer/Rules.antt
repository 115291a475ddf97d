-- ===== src/Lexer/Rules.antt =====
-- Each rule of `lexer_next` in src/lexer.c reads a token of the grammar in `Lexeme`.
use vnt.Base.{
  ℕ, ◌+◌, ◌-◌, ◌≤◌, ◌≡◌, refl, sym, ◌∙◌, subst, ◌≢◌, inl, inr, true, false, ◌&&◌, List, ◌∷◌, arith,
  ◌==◌, ==_iff, Bool-cases, if_rule, length,
}
use vnt.Lexer.Ctype.{isdigit, isxdigit}
use vnt.Lexer.State.{
  TokenType, Token, Lexer, identifier, string, integer, float, unknown, char_at, peek, advance,
  room, advance_while, make_token, in_identifier, identifier_rule, number_tail, number_rule,
  string_loop, string_rule,
}
use vnt.Lexer.Next.{punctuation, token_here}
use vnt.Lexer.Walk.{
  Walk, Advances, Walk-trans, Walk-Advances, Follows-advance, Walk-Follows, source-advance,
  current-advance, advance_while-Walk, advance_while_stops,
}
use vnt.Lexer.Quoted.{string_loop-Stops}
use vnt.Lexer.Lexeme.{
  starts_identifier, starts_longer, is_x, Shape, word, hexadecimal, decimal, fraction, quoted,
  unterminated, symbol, Extent, Lexed,
}
use vnt.Lexer.Symbols.{
  Symbol, single, double, stray, spelling, spelled_ne_zero, IsLongest, punctuation-IsLongest,
}

-- A token that is made of all that was read.
module _ (l m : Lexer) (t : TokenType) (z : peek l ≢ 0) (w : Advances (advance l) m) where
  whole-Lexed :
      Shape l m t
      → ((s n a b : ℕ) → s ≡ a → s + n ≡ b → Extent t s n a b)
      → Lexed l (make_token m t l.current, m)
  unfolding make_token
  whole-Lexed s ex =
      let f = Walk-Follows w in
      let g = Follows-advance l z in
      let c = current-advance l in
      record {
        shape = s;
        walk = Walk-trans (Walk.step Walk.here refl z) w;
        moved = omega arith;
        extent = ex l.current (m.current - l.current) l.current m.current refl (omega arith);
        line = f.token_line ∙ g.token_line;
        column = f.token_column ∙ g.token_column;
      }

isdigit-zero : isdigit 0 ≡ false
unfolding isdigit
isdigit-zero = refl

isxdigit-zero : isxdigit 0 ≡ false
unfolding isxdigit
isxdigit-zero = refl

in_identifier-zero : in_identifier 0 ≡ false
unfolding in_identifier
in_identifier-zero = refl

char_at-behind : (k : Lexer) → char_at k.source (k.current + 1) ≡ peek (advance k)
unfolding peek
char_at-behind k = rw (source-advance, current-advance)

zero_test : (c : ℕ) → c ≡ 0 → (c == 0) ≡ true
zero_test c e = ground arith

quote_ne_zero : (c : ℕ) → c ≡ 34 → (c == 0) ≡ false
quote_ne_zero c e = ground arith

-- A symbol's token is made of all its bytes.
spelled-Extent :
    (t : TokenType) (c : ℕ) {cs : List ℕ}
    → spelling t ≡ c ∷ cs
    → (s n a b : ℕ) → s ≡ a
    → s + n ≡ b
    → Extent t s n a b
spelled-Extent string c e s n a b p q = cc
spelled-Extent _ c e s n a b p q = (p, q)

Symbol-Advances : {c : ℕ} {l m : Lexer} {t : TokenType} → Symbol c l m t → Advances l m
Symbol-Advances (single e h) = Walk.here
Symbol-Advances {c} {l} (double {t} e) = Walk.step Walk.here refl (spelled_ne_zero t c (peek l) e)
Symbol-Advances (stray h k) = Walk.here

Symbol-Extent :
    {c : ℕ} {l m : Lexer} {t : TokenType}
    → Symbol c l m t
    → (s n a b : ℕ) → s ≡ a
    → s + n ≡ b
    → Extent t s n a b
Symbol-Extent {c} (single {t} e h) = spelled-Extent t c e
Symbol-Extent {c} (double {t} e) = spelled-Extent t c e
Symbol-Extent (stray h k) = λ s n a b p q. (p, q)

module _ (l : Lexer) (b : l.current ≤ length l.source) (z : peek l ≢ 0) where
  after : (advance l).current ≤ length (advance l).source
  after = (Follows-advance l z).bound b

  identifier_rule-Lexed :
      starts_identifier (peek l) ≡ true → Lexed l (identifier_rule (advance l) l.current)
  unfolding identifier_rule in_identifier
  identifier_rule-Lexed h =
      let w = advance_while-Walk in_identifier (advance l) in_identifier-zero after in
      whole-Lexed l _ identifier z (Walk-Advances w)
        (word h w (advance_while_stops in_identifier (advance l) in_identifier-zero after))
        (λ s n a b p q. (p, q))

  char_at-start : char_at (advance l).source l.current ≡ peek l
  unfolding peek
  char_at-start = rw source-advance

  number_tail-Lexed :
      (k : Lexer)
      → isdigit (peek l) ≡ true
      → (peek l == b'0' && is_x (peek (advance l))) ≡ false
      → Walk isdigit (advance l) k
      → isdigit (peek k) ≡ false
      → Lexed l (number_tail k l.current)
  number_tail-Lexed k d no_hex w stop = elim (Bool-cases (peek k == b'.')) [
    | inr no_point ↦ rw no_point (
        whole-Lexed l k integer z (Walk-Advances w) (decimal d no_hex w stop (rw no_point))
          (λ s n a b p q. (p, q)))
    | inl point ↦ elim (Bool-cases (isdigit (peek (advance k)))) [
      | inr no_digit ↦
          rw (point, char_at-behind k, no_digit)
            (whole-Lexed l k integer z (Walk-Advances w)
              (decimal d no_hex w stop (rw (point, no_digit))) (λ s n a b p q. (p, q)))
      | inl digit ↦
          let p = (==_iff _ _).0 point in
          let zk : peek k ≢ 0 = λ e. absurd (omega arith) in
          let ek =
            advance_while-Walk isdigit (advance k) isdigit-zero
              ((Follows-advance k zk).bound ((Walk-Follows w).bound after)) in
          rw (point, char_at-behind k, digit)
            (whole-Lexed l _ float z
              (Walk-trans (Walk-Advances w)
                (Walk-trans (Walk.step Walk.here refl zk) (Walk-Advances ek)))
              (fraction d no_hex w p digit ek (
                advance_while_stops isdigit (advance k) isdigit-zero
                  ((Follows-advance k zk).bound ((Walk-Follows w).bound after))))
              (λ s n a b p q. (p, q)))
    ]
  ]

  number_rule-Lexed : isdigit (peek l) ≡ true → Lexed l (number_rule (advance l) l.current)
  unfolding number_rule
  number_rule-Lexed d =
      let plain : (peek l == b'0' && is_x (peek (advance l))) ≡ false
          → Lexed l (number_tail (advance_while isdigit (room (advance l)) (advance l)) l.current) =
        λ no_hex.
          number_tail-Lexed _ d no_hex (advance_while-Walk isdigit (advance l) isdigit-zero after)
            (advance_while_stops isdigit (advance l) isdigit-zero after) in
      elim (Bool-cases (peek l == b'0')) [
        | inr other ↦ rw (char_at-start, other) (plain (rw other refl))
        | inl nought ↦ elim (Bool-cases (is_x (peek (advance l)))) [
          | inr no_x ↦ rw (char_at-start, nought, no_x) (plain (rw (nought, no_x) refl))
          | inl x ↦
              let zx : peek (advance l) ≢ 0 = λ e. ground arith in
              let bx = (Follows-advance (advance l) zx).bound after in
              let w = advance_while-Walk isxdigit (advance (advance l)) isxdigit-zero bx in
              rw (char_at-start, nought, x)
                (whole-Lexed l _ integer z
                  (Walk-trans (Walk.step Walk.here refl zx) (Walk-Advances w))
                  (hexadecimal ((==_iff _ _).0 nought) x w
                    (advance_while_stops isxdigit (advance (advance l)) isxdigit-zero bx))
                  (λ s n a b p q. (p, q)))
        ]
      ]

  string_rule-Lexed : peek l ≡ 34 → Lexed l (string_rule (advance l) l.current)
  unfolding string_rule make_token
  string_rule-Lexed open_quote =
      let k = string_loop (room (advance l)) (advance l) in
      let (w, stops) = string_loop-Stops (advance l) after in
      let g = Follows-advance l z in
      let f = Walk-Follows w in
      let c = current-advance l in
      elim stops [
        | inr (j, q, end) ↦
            rw (zero_test (peek k) end.0)
              (whole-Lexed l k unknown z w (unterminated open_quote q end) (λ s n a b p q. (p, q)))
        | inl body ↦
            let close = body.1 in
            let zk : peek k ≢ 0 = λ e. absurd (omega arith) in
            let h = Follows-advance k zk in
            let ck = current-advance k in
            rw (quote_ne_zero (peek k) close) (record {
              shape = quoted open_quote body.0 close refl;
              walk = Walk-trans (Walk.step Walk.here refl z) (Walk.step w refl zk);
              moved = omega arith;
              extent = (refl, omega arith);
              line = h.token_line ∙ f.token_line ∙ g.token_line;
              column = h.token_column ∙ f.token_column ∙ g.token_column;
            })
      ]

  symbol-Lexed :
      starts_longer (peek l) ≡ false
      → (r : Token × Lexer) → IsLongest (peek l) (advance l) l.current r
      → Lexed l r
  symbol-Lexed other (t, m) p =
      subst (λ x. Lexed l (x, m)) (sym p.made)
        (whole-Lexed l m t.type z (Symbol-Advances p.symbol) (symbol other p.symbol)
          (Symbol-Extent p.symbol))

  punctuation-Lexed :
      starts_longer (peek l) ≡ false → Lexed l (punctuation (advance l) l.current (peek l))
  punctuation-Lexed other =
      symbol-Lexed other _ (punctuation-IsLongest (advance l) l.current (peek l))

  -- At a byte that is no NUL, the call reads a token of the grammar.
  pub token_here-Lexed : Lexed l (token_here l)
  unfolding token_here
  token_here-Lexed =
      let P = Lexed l in
      if_rule P (peek l == 0) (λ e. absurd (z ((==_iff _ _).0 e)))
        λ _. if_rule P (starts_identifier (peek l)) identifier_rule-Lexed λ no_name.
          if_rule P (isdigit (peek l)) number_rule-Lexed λ no_digit.
            if_rule P (peek l == 34) (λ e. string_rule-Lexed ((==_iff _ _).0 e))
              λ no_quote. punctuation-Lexed (rw (no_name, no_digit, no_quote) refl)
