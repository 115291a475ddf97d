-- ===== src/Lexer/Position.antt =====
-- The lines and columns that src/lexer.c reports.
use vnt.Base.{
  ℕ, suc, ◌+◌, ◌-◌, ◌≤◌, ◌<◌, ◌≡◌, refl, ◌∙◌, subst, ◌≢◌, inl, inr, false, List, [], ◌∷◌, ◌++◌,
  arith, ◌==◌, if◌then◌else◌, Bool-cases, length, take, length-append, take-suc,
}
use vnt.Lexer.State.{
  TokenType, Token, Lexer, eof, string, peek, advance, skip_whitespace, lexer_init, char_at,
}
use native.Mathlib.Numerals.{add-one}
use vnt.Lexer.Next.{mark_start, lexer_next}
use vnt.Lexer.Walk.{Walk, Advances, Walk-Follows, peek_lt}
use vnt.Lexer.Blank.{Blank-Advances}
use vnt.Lexer.Lexeme.{Extent, Lexed}
use vnt.Lexer.Tokens.{Reads, lexer_next-Reads}

-- The newlines of a text, and the bytes behind its last newline.
unfoldable pub newlines : List ℕ → ℕ
newlines [] = 0
newlines (c ∷ s) = if c == 10 then suc (newlines s) else newlines s

unfoldable pub last_line : List ℕ → List ℕ
last_line [] = []
last_line (c ∷ s) = if newlines s == 0 then (if c == 10 then s else c ∷ s) else last_line s

-- Line and column of an offset, both from 1.
abbrev pub line_of : List ℕ → ℕ → ℕ
line_of s i = suc (newlines (take i s))

abbrev pub column_of : List ℕ → ℕ → ℕ
column_of s i = suc (length (last_line (take i s)))

newlines-snoc :
    (s : List ℕ) (c : ℕ)
    → newlines (s ++ c ∷ []) ≡ (if c == 10 then suc (newlines s) else newlines s)
unfolding newlines
newlines-snoc [] c = refl
newlines-snoc (d ∷ s) c = ground (arith, newlines-snoc s c)

last_line-snoc :
    (s : List ℕ) (c : ℕ) → last_line (s ++ c ∷ []) ≡ (if c == 10 then [] else last_line s ++ c ∷ [])
unfolding last_line newlines
last_line-snoc [] c = ground arith
last_line-snoc (d ∷ s) c = ground (arith, newlines-snoc s c, last_line-snoc s c)

module _ (s : List ℕ) (i : ℕ) (h : i < length s) where
  newlines-take :
      newlines (take (i + 1) s)
      ≡ (if char_at s i == 10 then suc (newlines (take i s)) else newlines (take i s))
  newlines-take = rw (add-one, take-suc s i 0 h, newlines-snoc)

  length-last_line-take :
      length (last_line (take (i + 1) s))
      ≡ (if char_at s i == 10 then 0 else suc (length (last_line (take i s))))
  length-last_line-take =
      rw (add-one, take-suc s i 0 h, last_line-snoc)
        (ground (arith, length-append (last_line (take i s)) (char_at s i ∷ [])))

-- The lexer's counters are the line and the column of its cursor.
pub record IsLocated (l : Lexer) : Type 0 where
  pub line : l.line ≡ line_of l.source l.current
  pub column : l.column ≡ column_of l.source l.current

pub advance-IsLocated : (l : Lexer) → peek l ≢ 0 → IsLocated l → IsLocated (advance l)
unfolding advance
advance-IsLocated l z at =
    let lt = peek_lt l z in
    let lines = newlines-take l.source l.current lt in
    let columns = length-last_line-take l.source l.current lt in
    elim (Bool-cases (peek l == 10)) [
      | inl end ↦ rw end (record { line = ground arith; column = ground arith })
      | inr inside ↦
          let byte : (peek l == 0) ≡ false = ground arith in
          rw (inside, byte) (record { line = ground arith; column = ground arith })
    ]

pub Walk-IsLocated : {l m : Lexer} → Advances l m → IsLocated l → IsLocated m
Walk-IsLocated Walk.here at = at
Walk-IsLocated (Walk.step {m} w h z) at = advance-IsLocated m z (Walk-IsLocated w at)

pub IsLocated-init : (source : List ℕ) → IsLocated (lexer_init source)
unfolding lexer_init newlines last_line
IsLocated-init source = record { line = refl; column = refl }

-- The offset of a token's first byte; a string's text starts behind its quote.
abbrev pub origin : Token → ℕ
origin t = elim t.type [ string ↦ t.start - 1 | _ ↦ t.start ]

-- The token is reported at the line and the column of its first byte.
pub record IsPlaced (source : List ℕ) (t : Token) : Type 0 where
  pub line : t.line ≡ line_of source (origin t)
  pub column : t.column ≡ column_of source (origin t)

origin_lem : (r : Token × Lexer) (k : Lexer) → Lexed k r → origin r.0 ≡ k.current
origin_lem r k x = go r.0.type refl x.extent
  where
    go :
        (t : TokenType)
        → r.0.type ≡ t
        → Extent t r.0.start r.0.length k.current r.1.current
        → origin r.0 ≡ k.current
    go string e h = rw e (omega arith)
    go eof e h = rw e h.0
    go _ e h = rw e h.0

origin_eof : (t : Token) → t.type ≡ eof → origin t ≡ t.start
origin_eof t e = rw e

-- From a cursor in the source whose counters are right, a call places its token right, and leaves the counters
-- right unless it returned the end of the input.
pub lexer_next-IsPlaced :
    (l : Lexer)
    → l.current ≤ length l.source
    → IsLocated l
    → IsPlaced l.source (lexer_next l).0
      × ((lexer_next l).0.type ≢ eof → IsLocated (lexer_next l).1)
lexer_next-IsPlaced l b at = go (lexer_next l) (lexer_next-Reads l b)
  where
    go : (r : Token × Lexer) → Reads l r → IsPlaced l.source r.0 × (r.0.type ≢ eof → IsLocated r.1)
    go r (blank, solid, read) =
        let w = Blank-Advances blank in
        let f = Walk-Follows w in
        let k = Walk-IsLocated w at in
        let same = f.source in
        elim read [
          | inl token ↦
              let x = token.1 in
              let o = origin_lem r (mark_start (skip_whitespace l)) x in
              (
                subst (λ s. IsPlaced s r.0) same
                    (record { line = rw o (x.line ∙ k.line); column = rw o (x.column ∙ k.column) }),
                λ _. Walk-IsLocated x.walk (record { line = k.line; column = k.column }),
              )
          | inr end ↦
              let e = end.1 in
              let o = origin_eof r.0 e.type in
              (
                subst (λ s. IsPlaced s r.0) same
                    (record {
                      line = rw (o, e.start) (e.line ∙ k.line);
                      column = rw (o, e.start) (e.column ∙ k.column);
                    }),
                λ ne. absurd (ne e.type),
              )
        ]
