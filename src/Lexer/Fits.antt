-- ===== src/Lexer/Fits.antt =====
-- The counters of src/lexer.c and include/vnt/lexer.h are `int`: on a source shorter than INT_MAX none
-- of them overflows, so the model keeps them as numbers.
use vnt.Base.{
  ℕ, zero, suc, ◌+◌, ◌-◌, ◌^◌, ◌≤◌, ◌<◌, ap, ◌≢◌, inl, inr, List, [], ◌∷◌, arith, length, take,
}
use vnt.Lexer.State.{Token, Lexer, eof}
use vnt.Lexer.Next.{lexer_next}
use vnt.Lexer.Tokens.{not-Shape-eof, Progress, lexer_next-Reads, lexer_next-Progress}
use vnt.Lexer.Room.{lexer_next-Within}
use vnt.Lexer.Position.{
  newlines, last_line, line_of, column_of, IsLocated, IsPlaced, origin, lexer_next-IsPlaced,
}

abbrev pub int_max : ℕ
int_max = 2 ^ 31 - 1

length-take : {A : Type 0} (i : ℕ) (s : List A) → length (take i s) ≤ length s
length-take zero s = omega arith
length-take (suc i) [] = omega arith
length-take (suc i) (c ∷ s) = omega (arith, length-take i s)

newlines-le : (s : List ℕ) → newlines s ≤ length s
unfolding newlines
newlines-le [] = omega arith
newlines-le (c ∷ s) = ground (arith, newlines-le s)

length-last_line : (s : List ℕ) → length (last_line s) ≤ length s
unfolding last_line
length-last_line [] = omega arith
length-last_line (c ∷ s) = ground (arith, length-last_line s)

line_of-le : (s : List ℕ) (i : ℕ) → line_of s i ≤ length s + 1
line_of-le s i = omega (arith, newlines-le (take i s), length-take i s)

column_of-le : (s : List ℕ) (i : ℕ) → column_of s i ≤ length s + 1
column_of-le s i = omega (arith, length-last_line (take i s), length-take i s)

-- The fields of a token and of the lexer behind it that are an `int`.
pub record FitsInt (r : Token × Lexer) : Type 0 where
  pub size : r.0.length ≤ int_max
  pub line : r.0.line ≤ int_max
  pub column : r.0.column ≤ int_max
  pub cursor : r.1.current ≤ int_max

-- The counters of a lexer that is to be called again.
pub record CountersFit (l : Lexer) : Type 0 where
  pub line : l.line ≤ int_max
  pub column : l.column ≤ int_max

IsLocated-CountersFit : (l : Lexer) → length l.source < int_max → IsLocated l → CountersFit l
IsLocated-CountersFit l short at = record {
  line = omega (arith, at.line, line_of-le l.source l.current);
  column = omega (arith, at.column, column_of-le l.source l.current);
}

module _ (l : Lexer) (b : l.current ≤ length l.source) (short : length l.source < int_max) where
  cursor_fits : (lexer_next l).1.current ≤ int_max
  cursor_fits = omega (arith, (lexer_next-Within l b).1)

  size_fits : (lexer_next l).0.length ≤ int_max
  size_fits =
      let (blank, solid, read) = lexer_next-Reads l b in
      elim read [
        | inl token ↦
            let p = lexer_next-Progress l b (not-Shape-eof token.1.shape) in
            omega (arith, p.finish, cursor_fits)
        | inr end ↦ omega (arith, end.1.size)
      ]

  module _ (at : IsLocated l) where
    pub lexer_next-FitsInt : FitsInt (lexer_next l)
    lexer_next-FitsInt =
        let placed = (lexer_next-IsPlaced l b at).0 in
        let o = origin (lexer_next l).0 in
        record {
          size = size_fits;
          line = omega (arith, placed.line, line_of-le l.source o);
          column = omega (arith, placed.column, column_of-le l.source o);
          cursor = cursor_fits;
        }

    -- From a cursor in a source shorter than INT_MAX, the line and column counters right, a call reports
    -- its token at the line and column of its first byte, every `int` of the token and the new cursor
    -- within INT_MAX, and leaves the counters right, and within INT_MAX, unless it returned the end of
    -- the input.
    pub lexer_next-IsPlaced_fits :
        IsPlaced l.source (lexer_next l).0
        × FitsInt (lexer_next l)
        × ((lexer_next l).0.type ≢ eof → IsLocated (lexer_next l).1 × CountersFit (lexer_next l).1)
    lexer_next-IsPlaced_fits =
        let (placed, onward) = lexer_next-IsPlaced l b at in
        (
          placed,
          lexer_next-FitsInt,
          λ ne.
              let p = lexer_next-Progress l b ne in
              let there = onward ne in
              (
                there,
                IsLocated-CountersFit (lexer_next l).1 (omega (arith, ap length p.source)) there,
              ),
        )

  -- From a cursor in a source shorter than INT_MAX, a token other than the end of the input lies within
  -- the bytes that its call read, the call read one byte at least and none beyond the source, and the
  -- token's length and the new cursor are within INT_MAX.
  pub lexer_next-Progress_fits :
      (lexer_next l).0.type ≢ eof
      → Progress l (lexer_next l)
        × ((lexer_next l).0.length ≤ int_max)
        × ((lexer_next l).1.current ≤ int_max)
  lexer_next-Progress_fits ne = (lexer_next-Progress l b ne, size_fits, cursor_fits)
