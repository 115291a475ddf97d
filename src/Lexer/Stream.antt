-- ===== src/Lexer/Stream.antt =====
-- Calls of `lexer_next` of src/lexer.c up to the end of the input.
use vnt.Base.{
  ℕ, zero, suc, ◌≤◌, ◌<◌, ◌≡◌, refl, ap, ◌≢◌, inl, inr, Bool, true, false, List, [], ◌∷◌, arith,
  if◌then◌else◌, Bool-cases, length,
}
use vnt.Lexer.State.{TokenType, Token, Lexer, eof, identifier, room}
use vnt.Lexer.Next.{lexer_next}
use vnt.Lexer.Tokens.{Reads, Progress, lexer_next-Reads, lexer_next-Progress}
use vnt.Lexer.Position.{IsLocated, IsPlaced, lexer_next-IsPlaced}
use vnt.Lexer.Fits.{int_max, FitsInt, lexer_next-FitsInt}

abbrev pub is_eof : TokenType → Bool
is_eof eof = true
is_eof _ = false

is_eof→eq : (t : TokenType) → is_eof t ≡ true → t ≡ eof
is_eof→eq eof h = refl
is_eof→eq identifier h = cc
is_eof→eq _ h = cc

ne_of_is_eof : (t : TokenType) → is_eof t ≡ false → t ≢ eof
ne_of_is_eof t h e = let p : is_eof t ≡ true = ap is_eof e in cc

-- Calls of `lexer_next` up to the end of the input, as the parser makes them.
unfoldable pub all_tokens : ℕ → Lexer → List Token
all_tokens zero l = []
all_tokens (suc fuel) l =
    let r = lexer_next l in
    let rest = all_tokens fuel r.1 in if is_eof r.0.type then r.0 ∷ [] else r.0 ∷ rest

-- What one call does: it reads one token, reports its place, and no `int` overflows.
abbrev pub Called : Lexer → Token × Lexer → Type 0
Called l r = Reads l r × IsPlaced l.source r.0 × FitsInt r

-- A source read to its end: each token as one call reads it, the last the end of the input.
pub data Stream : Lexer → List Token → Type 0 where
  last : {l : Lexer} {r : Token × Lexer} → Called l r → r.0.type ≡ eof → Stream l (r.0 ∷ [])
  more :
      {l : Lexer} {r : Token × Lexer} {ts : List Token}
      → Called l r
      → Progress l r
      → Stream r.1 ts
      → Stream l (r.0 ∷ ts)

lexer_next-Called :
    (l : Lexer)
    → l.current ≤ length l.source
    → length l.source < int_max
    → IsLocated l
    → Called l (lexer_next l)
lexer_next-Called l b short at =
    (lexer_next-Reads l b, (lexer_next-IsPlaced l b at).0, lexer_next-FitsInt l b short at)

-- From a cursor in a source shorter than INT_MAX, the line and column counters right, one call for each
-- byte left and one for the NUL are enough to read the source to its end: each call reads one whole token
-- of the grammar and reports it at its place, every `int` within INT_MAX, and no more tokens than bytes
-- left, the NUL counted, are returned.
pub all_tokens-Stream :
    (fuel : ℕ) (l : Lexer)
    → l.current ≤ length l.source
    → length l.source < int_max
    → IsLocated l
    → room l ≤ fuel
    → Stream l (all_tokens fuel l) × (length (all_tokens fuel l) ≤ room l)
unfolding all_tokens
all_tokens-Stream zero l b short at h = absurd (omega arith)
all_tokens-Stream (suc fuel) l b short at h = elim (Bool-cases (is_eof (lexer_next l).0.type)) [
  | inl end ↦ rw end (last (lexer_next-Called l b short at) (is_eof→eq _ end), omega arith)
  | inr on ↦
      let ne = ne_of_is_eof _ on in
      let p = lexer_next-Progress l b ne in
      let same = ap length p.source in
      let rest =
        all_tokens-Stream fuel (lexer_next l).1 p.bound (omega (arith, same))
          ((lexer_next-IsPlaced l b at).1 ne) (omega (arith, same, p.forward, p.bound)) in
      rw on (
        more (lexer_next-Called l b short at) p rest.0,
        omega (arith, same, rest.1, p.forward, p.bound),
      )
]
