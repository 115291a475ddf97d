-- ===== src/Lexer/Room.antt =====
-- Every call of `lexer_next` of src/lexer.c leaves fewer bytes.
use vnt.Base.{◌+◌, ◌≤◌, ◌≡◌, refl, ap, ◌∙◌, inl, inr, true, arith, ◌==◌, length}
use vnt.Lexer.State.{Lexer, room, peek, advance, skip_whitespace}
use vnt.Lexer.Next.{mark_start, token_here, lexer_next}
use vnt.Lexer.Walk.{Walk-Follows, source-advance, current-advance}
use vnt.Lexer.Blank.{Blank-Advances}
use vnt.Lexer.Tokens.{not-Shape-eof, lexer_next-Reads, lexer_next-Progress}

pub token_here-end :
    (k : Lexer) → peek k ≡ 0 → (token_here (mark_start k)).1 ≡ advance (mark_start k)
unfolding token_here peek advance
token_here-end k e = let end : (peek k == 0) ≡ true = ground arith in rw end refl

-- Also the call that returns the end of the input reads the NUL.
pub room-lexer_next : (l : Lexer) → l.current ≤ length l.source → room (lexer_next l).1 + 1 ≤ room l
room-lexer_next l b =
    let (blank, solid, read) = lexer_next-Reads l b in
    elim read [
      | inl token ↦
          let p = lexer_next-Progress l b (not-Shape-eof token.1.shape) in
          let same = ap length p.source in omega (arith, same, p.forward, p.bound)
      | inr end ↦
          let k = skip_whitespace l in
          let f = Walk-Follows (Blank-Advances blank) in
          let state : (lexer_next l).1 ≡ advance (mark_start k) =
            unfold lexer_next in token_here-end k end.0 in
          let same = ap length f.source in
          rw state (
            omega (
              arith,
              ap length (source-advance (mark_start k)),
              current-advance (mark_start k),
              same,
              f.forward,
              f.bound b,
            ))
    ]

-- A call keeps the source, and the cursor goes no further than behind the NUL.
pub lexer_next-Within :
    (l : Lexer)
    → l.current ≤ length l.source
    → ((lexer_next l).1.source ≡ l.source) × ((lexer_next l).1.current ≤ length l.source + 1)
lexer_next-Within l b =
    let (blank, solid, read) = lexer_next-Reads l b in
    elim read [
      | inl token ↦
          let p = lexer_next-Progress l b (not-Shape-eof token.1.shape) in
          (p.source, omega (arith, p.bound, ap length p.source))
      | inr end ↦
          let k = skip_whitespace l in
          let f = Walk-Follows (Blank-Advances blank) in
          let state : (lexer_next l).1 ≡ advance (mark_start k) =
            unfold lexer_next in token_here-end k end.0 in
          rw state (
            source-advance (mark_start k) ∙ f.source,
            omega (arith, current-advance (mark_start k), ap length f.source, f.bound b),
          )
    ]
