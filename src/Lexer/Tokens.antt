-- ===== src/Lexer/Tokens.antt =====
-- `lexer_next` of src/lexer.c as its callers see it: progress, the end of the input, and whole runs.
use vnt.Base.{
  ℕ, ◌+◌, ◌≤◌, ◌<◌, ◌≡◌, refl, ◌∙◌, ◌≢◌, ◌⊎◌, inl, inr, true, false, List, ◌∷◌, arith, ◌==◌, ==_iff,
  Bool-cases, length,
}
use vnt.Lexer.State.{
  TokenType, Token, Lexer, eof, string, peek, advance, skip_whitespace, make_token,
}
use vnt.Lexer.Next.{mark_start, token_here, lexer_next}
use vnt.Lexer.Walk.{Walk-Follows}
use vnt.Lexer.Blank.{Blank, AtToken, Blank-Advances, skip_whitespace-Blank, skip_whitespace-AtToken}
use vnt.Lexer.Symbols.{Symbol, single, double, stray, spelling}
use vnt.Lexer.Lexeme.{Shape, word, symbol, Lexed}
use vnt.Lexer.Lexeme.{Extent}
use vnt.Lexer.Rules.{token_here-Lexed}

not-spelling-eof : (t : TokenType) {c : ℕ} {cs : List ℕ} → spelling t ≡ c ∷ cs → t ≢ eof
not-spelling-eof eof e h = cc
not-spelling-eof _ e h = cc

not-Symbol-eof : {c : ℕ} {l m : Lexer} {t : TokenType} → Symbol c l m t → t ≢ eof
not-Symbol-eof (single {t} e h) = not-spelling-eof t e
not-Symbol-eof (double {t} e) = not-spelling-eof t e
not-Symbol-eof (stray h k) = λ e. cc

pub not-Shape-eof : {l m : Lexer} {t : TokenType} → Shape l m t → t ≢ eof
not-Shape-eof (symbol o s) = not-Symbol-eof s
not-Shape-eof (word a b c) = λ e. cc
not-Shape-eof _ = λ e. cc

-- The end-of-input token, at the cursor of `k`; its one byte is the NUL.
pub record AtEnd (k : Lexer) (t : Token) : Type 0 where
  pub type : t.type ≡ eof
  pub start : t.start ≡ k.current
  pub size : t.length ≡ 1
  pub line : t.line ≡ k.line
  pub column : t.column ≡ k.column

-- One call: blank text, and then a token of the grammar or the end of the input.
abbrev pub Reads : Lexer → Token × Lexer → Type 0
Reads l r =
    Blank l (skip_whitespace l)
    × AtToken (skip_whitespace l)
    × ((peek (skip_whitespace l) ≢ 0) × Lexed (mark_start (skip_whitespace l)) r
        ⊎ (peek (skip_whitespace l) ≡ 0) × AtEnd (skip_whitespace l) r.0)

token_here-AtEnd : (k : Lexer) → peek k ≡ 0 → AtEnd k (token_here (mark_start k)).0
unfolding token_here advance make_token
token_here-AtEnd k e =
    let end : (peek k == 0) ≡ true = ground arith in
    let same_line : (peek k == 10) ≡ false = ground arith in
    rw end (record {
      type = refl;
      start = refl;
      size = rw same_line (omega arith);
      line = rw same_line;
      column = rw same_line;
    })

module _ (l : Lexer) (b : l.current ≤ length l.source) where
  -- From a cursor in the source, a call skips blank text, all of it, and then reads one whole
  -- token of the grammar; where the NUL follows it returns the end-of-input token.
  pub lexer_next-Reads : Reads l (lexer_next l)
  unfolding lexer_next peek make_token
  lexer_next-Reads =
      let k = skip_whitespace l in
      let blank = skip_whitespace-Blank l b in
      let bk = (Walk-Follows (Blank-Advances blank)).bound b in
      (
        blank,
        skip_whitespace-AtToken l b,
        elim (Bool-cases (peek k == 0)) [
          | inl end ↦ inr ((==_iff _ _).0 end, token_here-AtEnd k ((==_iff _ _).0 end))
          | inr byte ↦
              let z : peek k ≢ 0 = ground arith in inl (z, token_here-Lexed (mark_start k) bk z)
        ],
      )

Extent-inside : (t : TokenType) (s n a b : ℕ) → Extent t s n a b → (a ≤ s) × (s + n ≤ b)
Extent-inside string s n a b h = omega arith
Extent-inside eof s n a b h = omega arith
Extent-inside _ s n a b h = omega arith

-- What a call that returned a token other than the end of the input did.
pub record Progress (l : Lexer) (r : Token × Lexer) : Type 0 where
  pub source : r.1.source ≡ l.source
  pub forward : l.current < r.1.current
  pub bound : r.1.current ≤ length r.1.source
  pub start : l.current ≤ r.0.start
  pub finish : r.0.start + r.0.length ≤ r.1.current

Reads-Progress :
    (l : Lexer) (r : Token × Lexer)
    → l.current ≤ length l.source
    → Reads l r
    → r.0.type ≢ eof
    → Progress l r
Reads-Progress l r b (blank, at, inr end) ne = absurd (ne end.1.type)
Reads-Progress l r b (blank, at, inl read) ne =
    let f = Walk-Follows (Blank-Advances blank) in
    let x = read.1 in
    let g = Walk-Follows x.walk in
    let inside = Extent-inside r.0.type r.0.start r.0.length _ _ x.extent in
    let moved = x.moved in
    record {
      source = g.source ∙ f.source;
      forward = omega (arith, f.forward);
      bound = g.bound (f.bound b);
      start = omega (arith, f.forward, inside.0);
      finish = inside.1;
    }

module _ (l : Lexer) (b : l.current ≤ length l.source) where
  -- A token other than the end of the input lies within the bytes that its call read.
  pub lexer_next-Progress : (lexer_next l).0.type ≢ eof → Progress l (lexer_next l)
  lexer_next-Progress ne = Reads-Progress l _ b (lexer_next-Reads l b) ne
