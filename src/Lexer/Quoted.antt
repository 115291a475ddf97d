-- ===== src/Lexer/Quoted.antt =====
-- The loop of `string` in src/lexer.c: it stops at the first quote that no backslash escapes.
use vnt.Base.{
  ℕ, zero, suc, ◌≤◌, ◌≡◌, refl, ◌≢◌, ◌⊎◌, inl, inr, arith, ◌==◌, ==_iff, Bool-cases, length,
}
use vnt.Lexer.State.{Lexer, peek, advance, room, string_loop}
use vnt.Lexer.Walk.{Walk, Advances, Walk-trans, Follows-advance, room-advance, room-advance_le}

-- `Quoted l m`: a string's body, of plain bytes and of pairs of a backslash and any byte.
pub data Quoted (l : Lexer) : Lexer → Type 0 where
  here : Quoted l l
  plain : {m : Lexer} → Quoted l m → peek m ≢ 34 → peek m ≢ 92 → peek m ≢ 0 → Quoted l (advance m)
  escape :
      {m : Lexer} → Quoted l m → peek m ≡ 92 → peek (advance m) ≢ 0 → Quoted l (advance (advance m))

pub Quoted-trans : {l m n : Lexer} → Quoted l m → Quoted m n → Quoted l n
Quoted-trans q here = q
Quoted-trans q (plain r a b c) = plain (Quoted-trans q r) a b c
Quoted-trans q (escape r a b) = escape (Quoted-trans q r) a b

-- A body that the NUL ends, behind its last backslash if that has no byte to escape.
abbrev pub Unclosed : Lexer → Lexer → Type 0
Unclosed k m = (peek m ≡ 0) × ((m ≡ k) ⊎ (peek k ≡ 92) × (m ≡ advance k))

-- Where the loop leaves the cursor: behind a body at the closing quote, or at the NUL.
abbrev pub Stops : Lexer → Lexer → Type 0
Stops l m = Advances l m × (Quoted l m × (peek m ≡ 34) ⊎ (k : Lexer) × Quoted l k × Unclosed k m)

Stops-plain :
    (l m : Lexer) → peek l ≢ 34 → peek l ≢ 92 → peek l ≢ 0 → Stops (advance l) m → Stops l m
Stops-plain l m a b c (w, inl q) =
    (Walk-trans (Walk.step Walk.here refl c) w, inl (Quoted-trans (plain here a b c) q.0, q.1))
Stops-plain l m a b c (w, inr (k, q, u)) =
    (Walk-trans (Walk.step Walk.here refl c) w, inr (k, Quoted-trans (plain here a b c) q, u))

Stops-escape :
    (l m : Lexer) → peek l ≡ 92 → peek (advance l) ≢ 0 → Stops (advance (advance l)) m → Stops l m
Stops-escape l m a b (w, inl q) = (
  Walk-trans (Walk.step (Walk.step Walk.here refl (λ e. cc)) refl b) w,
  inl (Quoted-trans (escape here a b) q.0, q.1),
)
Stops-escape l m a b (w, inr (k, q, u)) = (
  Walk-trans (Walk.step (Walk.step Walk.here refl (λ e. cc)) refl b) w,
  inr (k, Quoted-trans (escape here a b) q, u),
)

string_loop_fuel :
    (fuel : ℕ) (l : Lexer)
    → l.current ≤ length l.source
    → room l ≤ fuel
    → Stops l (string_loop fuel l)
unfolding string_loop
string_loop_fuel zero l b h = absurd (omega arith)
string_loop_fuel (suc fuel) l b h = elim (Bool-cases (peek l == 34)) [
  | inl quote ↦ rw quote (Walk.here, inl (here, (==_iff _ _).0 quote))
  | inr more ↦ elim (Bool-cases (peek l == 0)) [
    | inl end ↦ rw (more, end) (Walk.here, inr (l, here, ((==_iff _ _).0 end, inl refl)))
    | inr byte ↦
        let z : peek l ≢ 0 = ground arith in
        let f = Follows-advance l z in
        elim (Bool-cases (peek l == 92)) [
          | inr normal ↦
              rw (more, byte, normal)
                (Stops-plain l _ (ground arith) (ground arith) z
                  (string_loop_fuel fuel (advance l) (f.bound b) (room-advance l fuel z h)))
          | inl slash ↦ elim (Bool-cases (peek (advance l) == 0)) [
            | inl end ↦
                rw (more, byte, slash, end)
                  (
                    Walk.step Walk.here refl z,
                    inr (l, here, ((==_iff _ _).0 end, inr ((==_iff _ _).0 slash, refl))),
                  )
            | inr pair ↦
                let z' : peek (advance l) ≢ 0 = ground arith in
                let r = room-advance l fuel z h in
                rw (more, byte, slash, pair)
                  (Stops-escape l _ ((==_iff _ _).0 slash) z' (
                    string_loop_fuel fuel (advance (advance l))
                      ((Follows-advance (advance l) z').bound (f.bound b))
                      (omega (arith, r, room-advance_le (advance l)))))
          ]
        ]
  ]
]

-- The loop as `string` runs it.
pub string_loop-Stops : (l : Lexer) → l.current ≤ length l.source → Stops l (string_loop (room l) l)
string_loop-Stops l b = string_loop_fuel (room l) l b (omega arith)
