-- ===== src/Lexer/Walk.antt =====
-- What the character loops of src/lexer.c do: each is a walk over bytes that pass its test, and stops
-- at the first that does not. Their fuel, the bytes left, is never short.
use vnt.Base.{
  ℕ, zero, suc, ◌+◌, ◌-◌, ◌≤◌, ◌<◌, ◌≡◌, ◌≢◌, refl, sym, ◌∙◌, Bool, true, false, not, ◌&&◌, ◌||◌,
  List, [], ◌∷◌, length, get_or, ◌⊎◌, inl, inr, ◌==◌, arith, Bool-cases, if◌then◌else◌,
}
use vnt.Lexer.State.{Lexer, char_at, peek, advance, room, advance_while}

-- `Walk p l m`: from `l` the cursor reached `m` by advances, each over a byte that passes `p` and is
-- no NUL.
pub data Walk (p : ℕ → Bool) (l : Lexer) : Lexer → Type 0 where
  here : Walk p l l
  step : {m : Lexer} → Walk p l m → p (peek m) ≡ true → peek m ≢ 0 → Walk p l (advance m)

pub Walk-trans : {p : ℕ → Bool} {l m n : Lexer} → Walk p l m → Walk p m n → Walk p l n
Walk-trans w here = w
Walk-trans w (step v h z) = step (Walk-trans w v) h z

pub Walk-weaken :
    {p q : ℕ → Bool} {l m : Lexer} → ((c : ℕ) → p c ≡ true → q c ≡ true) → Walk p l m → Walk q l m
Walk-weaken k here = here
Walk-weaken k (step w h z) = step (Walk-weaken k w) (k _ h) z

-- A walk over any bytes.
abbrev pub Advances : Lexer → Lexer → Type 0
Advances = Walk (λ c. true)

pub Walk-Advances : {p : ℕ → Bool} {l m : Lexer} → Walk p l m → Advances l m
Walk-Advances w = Walk-weaken (λ c h. refl) w

pub char_at-past : (s : List ℕ) (i : ℕ) → length s ≤ i → char_at s i ≡ 0
char_at-past [] i h = refl
char_at-past (x ∷ s) zero h = absurd (omega arith)
char_at-past (x ∷ s) (suc i) h = char_at-past s i (omega arith)

-- A byte that is no NUL stands before the end.
pub lt_of_char_at : (s : List ℕ) (i : ℕ) → char_at s i ≢ 0 → i < length s
lt_of_char_at [] i h = absurd (h refl)
lt_of_char_at (x ∷ s) zero h = omega arith
lt_of_char_at (x ∷ s) (suc i) h = omega (arith, lt_of_char_at s i h)

-- What an advance over a byte that is no NUL changes.
pub source-advance : (l : Lexer) → (advance l).source ≡ l.source
unfolding advance
source-advance l = ground arith

pub current-advance : (l : Lexer) → (advance l).current ≡ l.current + 1
unfolding advance
current-advance l = ground arith

-- The cursor is on a byte of the source or on the NUL.
pub record InBounds (l : Lexer) : Type 0 where
  pub bound : l.current ≤ length l.source

pub peek_lt : (l : Lexer) → peek l ≢ 0 → l.current < length l.source
unfolding peek
peek_lt l h = lt_of_char_at l.source l.current h

pub ruleset advances = (arith, source-advance, current-advance)

-- What a walk keeps of the lexer.
pub record Follows (l m : Lexer) : Type 0 where
  pub source : m.source ≡ l.source
  pub forward : l.current ≤ m.current
  pub bound : l.current ≤ length l.source → m.current ≤ length m.source
  pub token_line : m.token_start_line ≡ l.token_start_line
  pub token_column : m.token_start_column ≡ l.token_start_column

pub Follows-refl : (l : Lexer) → Follows l l
Follows-refl l = record {
  source = refl;
  forward = omega arith;
  bound = λ h. h;
  token_line = refl;
  token_column = refl;
}

pub Follows-trans : {l m n : Lexer} → Follows l m → Follows m n → Follows l n
Follows-trans f g = record {
  source = g.source ∙ f.source;
  forward = omega arith;
  bound = λ h. g.bound (f.bound h);
  token_line = g.token_line ∙ f.token_line;
  token_column = g.token_column ∙ f.token_column;
}

pub Follows-advance : (l : Lexer) → peek l ≢ 0 → Follows l (advance l)
unfolding advance
Follows-advance l z = let lt = peek_lt l z in ground arith

pub Walk-Follows : {p : ℕ → Bool} {l m : Lexer} → Walk p l m → Follows l m
Walk-Follows {l} here = Follows-refl l
Walk-Follows (step {m} w h z) = Follows-trans (Walk-Follows w) (Follows-advance m z)

pub room-advance : (l : Lexer) (fuel : ℕ) → peek l ≢ 0 → room l ≤ suc fuel → room (advance l) ≤ fuel
room-advance l fuel z h =
    let lt = peek_lt l z in ground (arith, source-advance l, current-advance l)

pub room-advance_le : (l : Lexer) → room (advance l) ≤ room l
room-advance_le l = rw (source-advance, current-advance) (omega arith)

-- The loop walks over the bytes that pass the test, up to the first that does not.
pub advance_while_fuel :
    (p : ℕ → Bool) (fuel : ℕ) (l : Lexer)
    → p 0 ≡ false
    → l.current ≤ length l.source
    → room l ≤ fuel
    → Walk p l (advance_while p fuel l) × (p (peek (advance_while p fuel l)) ≡ false)
unfolding advance_while
advance_while_fuel p zero l p0 b h = absurd (omega arith)
advance_while_fuel p (suc fuel) l p0 b h = elim (Bool-cases (p (peek l))) [
  | inl yes_p ↦
      let z : peek l ≢ 0 = λ e. cc in
      let rest =
        advance_while_fuel p fuel (advance l) p0 ((Follows-advance l z).bound b)
          (room-advance l fuel z h) in
      rw yes_p (Walk-trans (step here yes_p z) rest.0, rest.1)
  | inr no_p ↦ rw no_p (here, no_p)
]

-- A loop that makes a round moves the cursor.
pub advance_while_forward :
    (p : ℕ → Bool) (fuel : ℕ) (l : Lexer)
    → p 0 ≡ false
    → l.current ≤ length l.source
    → room l ≤ fuel
    → p (peek l) ≡ true
    → l.current < (advance_while p fuel l).current
unfolding advance_while
advance_while_forward p zero l p0 b h yes_p = absurd (omega arith)
advance_while_forward p (suc fuel) l p0 b h yes_p =
    let z : peek l ≢ 0 = λ e. cc in
    let rest =
      advance_while_fuel p fuel (advance l) p0 ((Follows-advance l z).bound b)
        (room-advance l fuel z h) in
    rw yes_p (omega (arith, (Walk-Follows rest.0).forward, current-advance l))

-- The loop as the callers run it, with the bytes left for fuel.
module _ (p : ℕ → Bool) (l : Lexer) (p0 : p 0 ≡ false) (b : l.current ≤ length l.source) where
  pub advance_while-Walk : Walk p l (advance_while p (room l) l)
  advance_while-Walk = (advance_while_fuel p (room l) l p0 b (omega arith)).0

  pub advance_while_stops : p (peek (advance_while p (room l) l)) ≡ false
  advance_while_stops = (advance_while_fuel p (room l) l p0 b (omega arith)).1
