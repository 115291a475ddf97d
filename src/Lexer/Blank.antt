-- ===== src/Lexer/Blank.antt =====
-- `skip_whitespace` of src/lexer.c skips exactly the white space and the comments.
use vnt.Base.{
  ℕ, zero, suc, ◌≤◌, ◌≡◌, refl, ap, ◌≢◌, inl, inr, Bool, true, false, not, ◌&&◌, arith, ◌==◌,
  ==_iff, Bool-cases, length,
}
use vnt.Lexer.Ctype.{isspace}
use vnt.Lexer.State.{
  Lexer, peek, advance, room, advance_while, in_comment, whitespace_loop, skip_whitespace,
}
use vnt.Lexer.Walk.{
  Walk, Advances, Walk-trans, Walk-Advances, Follows-advance, Walk-Follows, room-advance,
  advance_while-Walk, advance_while_stops, advance_while_forward,
}

-- A byte of a comment, which the end of the line or of the source ends.
abbrev pub within_comment : ℕ → Bool
within_comment c = not (c == 0) && not (c == 10)

-- `Blank l m`: between the cursors of `l` and `m` stand white space and whole comments only.
pub data Blank (l : Lexer) : Lexer → Type 0 where
  here : Blank l l
  space : {m : Lexer} → Blank l m → isspace (peek m) ≡ true → Blank l (advance m)
  comment :
      {m n : Lexer}
      → Blank l m
      → peek m ≡ b'#'
      → Walk within_comment m n
      → within_comment (peek n) ≡ false
      → Blank l n

pub Blank-trans : {l m n : Lexer} → Blank l m → Blank m n → Blank l n
Blank-trans b here = b
Blank-trans b (space c h) = space (Blank-trans b c) h
Blank-trans b (comment c h w e) = comment (Blank-trans b c) h w e

pub isspace-ne-zero : (c : ℕ) → isspace c ≡ true → c ≢ 0
unfolding isspace
isspace-ne-zero c h = ground arith

pub Blank-Advances : {l m : Lexer} → Blank l m → Advances l m
Blank-Advances here = Walk.here
Blank-Advances (space b h) = Walk.step (Blank-Advances b) refl (isspace-ne-zero _ h)
Blank-Advances (comment b h w e) = Walk-trans (Blank-Advances b) (Walk-Advances w)

-- No more white space, and no comment, at the cursor.
abbrev pub AtToken : Lexer → Type 0
AtToken l = (isspace (peek l) ≡ false) × ((peek l == b'#') ≡ false)

hash-in_comment : (c : ℕ) → (c == b'#') ≡ true → in_comment c ≡ true
hash-in_comment c h = ground arith

whitespace_loop_fuel :
    (fuel : ℕ) (l : Lexer)
    → l.current ≤ length l.source
    → room l ≤ fuel
    → Blank l (whitespace_loop fuel l) × AtToken (whitespace_loop fuel l)
unfolding whitespace_loop
whitespace_loop_fuel zero l b h = absurd (omega arith)
whitespace_loop_fuel (suc fuel) l b h = elim (Bool-cases (isspace (peek l))) [
  | inl spaced ↦
      let z = isspace-ne-zero _ spaced in
      let rest =
        whitespace_loop_fuel fuel (advance l) ((Follows-advance l z).bound b)
          (room-advance l fuel z h) in
      rw spaced (Blank-trans (space here spaced) rest.0, rest.1)
  | inr solid ↦ elim (Bool-cases (peek l == b'#')) [
    | inl hash ↦
        let c = hash-in_comment (peek l) hash in
        let w = advance_while-Walk in_comment l refl b in
        let f = Walk-Follows w in
        let rest = whitespace_loop_fuel fuel (advance_while in_comment (room l) l) (f.bound b) (
          omega (
            arith,
            ap length f.source,
            advance_while_forward in_comment (room l) l refl b (omega arith) c,
          )) in
        rw (solid, hash)
          (
            Blank-trans
                (comment here ((==_iff _ _).0 hash) w (advance_while_stops in_comment l refl b))
                rest.0,
            rest.1,
          )
    | inr plain ↦ rw (solid, plain) (here, (solid, plain))
  ]
]

module _ (l : Lexer) (b : l.current ≤ length l.source) where
  pub skip_whitespace-Blank : Blank l (skip_whitespace l)
  unfolding skip_whitespace
  skip_whitespace-Blank = (whitespace_loop_fuel (room l) l b (omega arith)).0

  pub skip_whitespace-AtToken : AtToken (skip_whitespace l)
  unfolding skip_whitespace
  skip_whitespace-AtToken = (whitespace_loop_fuel (room l) l b (omega arith)).1
