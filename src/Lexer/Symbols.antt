-- ===== src/Lexer/Symbols.antt =====
-- The switch of `lexer_next` in src/lexer.c takes the longest symbol that is spelled at the cursor.
use vnt.Base.{
  ℕ, ◌≡◌, ◌≢◌, refl, Bool, true, false, ◌&&◌, ◌||◌, List, [], ◌∷◌, ◌==◌, ==_iff, arith, if_rule,
}
use vnt.Lexer.State.{
  TokenType, Token, Lexer, left_paren, right_paren, comma, colon, dot, ampersand, left_brace,
  right_brace, left_bracket, right_bracket, equals, plus_equals, minus_equals, star_equals,
  slash_equals, percent_equals, equal_equal, bang, bang_equal, greater, less, greater_equal,
  less_equal, plus, minus, star, slash, percent, and_and, or_or, unknown, peek, advance, make_token,
}
use vnt.Lexer.Next.{one, one_or_two, punctuation}

-- How a punctuation token is written; the other tokens have no fixed spelling.
abbrev pub spelling : TokenType → List ℕ
spelling left_paren = b'(' ∷ []
spelling right_paren = b')' ∷ []
spelling left_brace = b'{' ∷ []
spelling right_brace = b'}' ∷ []
spelling left_bracket = b'[' ∷ []
spelling right_bracket = b']' ∷ []
spelling comma = b',' ∷ []
spelling colon = b':' ∷ []
spelling dot = b'.' ∷ []
spelling ampersand = b'&' ∷ []
spelling equals = b'=' ∷ []
spelling bang = b'!' ∷ []
spelling greater = b'>' ∷ []
spelling less = b'<' ∷ []
spelling plus = b'+' ∷ []
spelling minus = b'-' ∷ []
spelling star = b'*' ∷ []
spelling slash = b'/' ∷ []
spelling percent = b'%' ∷ []
spelling equal_equal = b'=' ∷ b'=' ∷ []
spelling bang_equal = b'!' ∷ b'=' ∷ []
spelling greater_equal = b'>' ∷ b'=' ∷ []
spelling less_equal = b'<' ∷ b'=' ∷ []
spelling plus_equals = b'+' ∷ b'=' ∷ []
spelling minus_equals = b'-' ∷ b'=' ∷ []
spelling star_equals = b'*' ∷ b'=' ∷ []
spelling slash_equals = b'/' ∷ b'=' ∷ []
spelling percent_equals = b'%' ∷ b'=' ∷ []
spelling and_and = b'&' ∷ b'&' ∷ []
spelling or_or = b'|' ∷ b'|' ∷ []
spelling _ = []

-- `Symbol c l m t`: behind the first byte `c`, the cursor at `l`, the longest spelling is that of
-- `t`, and `m` is the cursor behind it. No spelling at all gives the token `unknown`.
pub data Symbol (c : ℕ) (l : Lexer) : Lexer → TokenType → Type 0 where
  single :
      {t : TokenType}
      → spelling t ≡ c ∷ []
      → ((u : TokenType) → spelling u ≢ c ∷ peek l ∷ [])
      → Symbol c l l t
  double : {t : TokenType} → spelling t ≡ c ∷ peek l ∷ [] → Symbol c l (advance l) t
  stray :
      ((u : TokenType) → spelling u ≢ c ∷ [])
      → ((u : TokenType) → spelling u ≢ c ∷ peek l ∷ [])
      → Symbol c l l unknown

-- The first bytes of the longer symbols, with their second byte.
abbrev takes_equals : ℕ → Bool
takes_equals c =
    (((c == b'=' || c == b'!') || (c == b'>' || c == b'<'))
      || ((c == b'+' || c == b'-') || c == b'*'))
    || (c == b'/' || c == b'%')

abbrev starts_two : ℕ → ℕ → Bool
starts_two c d =
    (takes_equals c && d == b'=') || ((c == b'&' && d == b'&') || (c == b'|' && d == b'|'))

spelled_two : (u : TokenType) (c d : ℕ) → spelling u ≡ c ∷ d ∷ [] → starts_two c d ≡ true
spelled_two left_paren c d e = ground arith
spelled_two _ c d e = ground arith

pub spelled_ne_zero : (u : TokenType) (c d : ℕ) → spelling u ≡ c ∷ d ∷ [] → d ≢ 0
spelled_ne_zero u c d e z = let k = spelled_two u c d e in ground arith

abbrev starts_one : ℕ → Bool
starts_one c =
    (((((c == b'(' || c == b')') || (c == b'{' || c == b'}'))
          || ((c == b'[' || c == b']') || c == b','))
        || (c == b':' || c == b'.'))
      || takes_equals c)
    || c == b'&'

spelled_one : (u : TokenType) (c : ℕ) → spelling u ≡ c ∷ [] → starts_one c ≡ true
spelled_one left_paren c e = ground arith
spelled_one _ c e = ground arith

-- A token of the switch, with the cursor behind it: made at `start`, and the longest symbol there.
pub record IsLongest (c : ℕ) (l : Lexer) (start : ℕ) (r : Token × Lexer) : Type 0 where
  pub symbol : Symbol c l r.1 r.0.type
  pub made : r.0 ≡ make_token r.1 r.0.type start

module _ (l : Lexer) (start : ℕ) (c : ℕ) where
  no_two : (d : ℕ) → starts_two c d ≡ false → (u : TokenType) → spelling u ≢ c ∷ d ∷ []
  no_two d h u e = let k = spelled_two u c d e in cc

  one-IsLongest :
      (t : TokenType) (k : ℕ)
      → spelling t ≡ k ∷ []
      → ((d : ℕ) → starts_two k d ≡ false)
      → (c == k) ≡ true
      → IsLongest c l start (one l start t)
  unfolding make_token
  one-IsLongest t k e two h =
      let c_eq = (==_iff c k).0 h in
      record { symbol = single (rw c_eq e) (no_two (peek l) (rw c_eq (two (peek l)))); made = refl }

  one_or_two-IsLongest :
      (k second : ℕ) (longer shorter : TokenType)
      → spelling longer ≡ k ∷ second ∷ []
      → spelling shorter ≡ k ∷ []
      → ((d : ℕ) → (d == second) ≡ false → starts_two k d ≡ false)
      → (c == k) ≡ true
      → IsLongest c l start (one_or_two l start second longer shorter)
  unfolding make_token
  one_or_two-IsLongest k second longer shorter e₂ e₁ two h =
      let c_eq = (==_iff c k).0 h in
      if_rule (IsLongest c l start) (peek l == second)
        (λ p. record { symbol = double (rw (c_eq, (==_iff _ _).0 p) e₂); made = refl })
        (λ n. record {
          symbol = single (rw c_eq e₁) (no_two (peek l) (rw c_eq (two (peek l) n)));
          made = refl;
        })

  -- A vertical bar alone is no symbol.
  bar-IsLongest : (c == b'|') ≡ true → IsLongest c l start (one_or_two l start b'|' or_or unknown)
  unfolding make_token
  bar-IsLongest h =
      let c_eq = (==_iff c b'|').0 h in
      if_rule (IsLongest c l start) (peek l == b'|')
        (λ p. record { symbol = double (rw (c_eq, (==_iff _ _).0 p)); made = refl })
        (λ n. record {
          symbol =
              stray (λ u e. let k = spelled_one u c e in ground arith)
                (no_two (peek l) (ground arith));
          made = refl;
        })

  stray-IsLongest :
      starts_one c ≡ false
      → ((d : ℕ) → starts_two c d ≡ false)
      → IsLongest c l start (one l start unknown)
  unfolding make_token
  stray-IsLongest h two = record {
    symbol = stray (λ u e. let k = spelled_one u c e in cc) (no_two (peek l) (two (peek l)));
    made = refl;
  }

  -- The switch makes the token whose spelling is the longest at the cursor, and `unknown` exactly
  -- where no spelling begins.
  pub punctuation-IsLongest : IsLongest c l start (punctuation l start c)
  unfolding punctuation
  punctuation-IsLongest =
      if_rule (IsLongest c l start) (c == b'(') (one-IsLongest left_paren b'(' refl (λ d. refl))
        λ h1.
          if_rule (IsLongest c l start) (c == b')')
            (one-IsLongest right_paren b')' refl (λ d. refl))
            λ h2.
              if_rule (IsLongest c l start) (c == b'{')
                (one-IsLongest left_brace b'{' refl (λ d. refl))
                λ h3.
                  if_rule (IsLongest c l start) (c == b'}')
                    (one-IsLongest right_brace b'}' refl (λ d. refl))
                    λ h4.
                      if_rule (IsLongest c l start) (c == b'[')
                        (one-IsLongest left_bracket b'[' refl (λ d. refl))
                        λ h5.
                          if_rule (IsLongest c l start) (c == b']')
                            (one-IsLongest right_bracket b']' refl (λ d. refl))
                            λ h6.
                              if_rule (IsLongest c l start) (c == b',')
                                (one-IsLongest comma b',' refl (λ d. refl))
                                λ h7.
                                  if_rule (IsLongest c l start) (c == b':')
                                    (one-IsLongest colon b':' refl (λ d. refl))
                                    λ h8.
                                      if_rule (IsLongest c l start) (c == b'.')
                                        (one-IsLongest dot b'.' refl (λ d. refl))
                                        λ h9.
                                          if_rule (IsLongest c l start) (c == b'=')
                                            (one_or_two-IsLongest b'=' b'=' equal_equal equals refl
                                              refl (λ d h. ground arith))
                                            λ h10.
                                              if_rule (IsLongest c l start) (c == b'!')
                                                (one_or_two-IsLongest b'!' b'=' bang_equal bang refl
                                                  refl (λ d h. ground arith))
                                                λ h11.
                                                  if_rule (IsLongest c l start) (c == b'>')
                                                    (one_or_two-IsLongest b'>' b'=' greater_equal
                                                      greater refl refl (λ d h. ground arith))
                                                    λ h12.
                                                      if_rule (IsLongest c l start) (c == b'<')
                                                        (one_or_two-IsLongest b'<' b'=' less_equal
                                                          less refl refl (λ d h. ground arith))
                                                        λ h13.
                                                          if_rule (IsLongest c l start) (c == b'+')
                                                            (one_or_two-IsLongest b'+' b'='
                                                            plus_equals plus refl refl
                                                            (λ d h. ground arith))
                                                            λ h14.
                                                            if_rule (IsLongest c l start)
                                                            (c == b'-')
                                                            (one_or_two-IsLongest b'-' b'='
                                                            minus_equals minus refl refl
                                                            (λ d h. ground arith))
                                                            λ h15.
                                                            if_rule (IsLongest c l start)
                                                            (c == b'*')
                                                            (one_or_two-IsLongest b'*' b'='
                                                            star_equals star refl refl
                                                            (λ d h. ground arith))
                                                            λ h16.
                                                            if_rule (IsLongest c l start)
                                                            (c == b'/')
                                                            (one_or_two-IsLongest b'/' b'='
                                                            slash_equals slash refl refl
                                                            (λ d h. ground arith))
                                                            λ h17.
                                                            if_rule (IsLongest c l start)
                                                            (c == b'%')
                                                            (one_or_two-IsLongest b'%' b'='
                                                            percent_equals percent refl refl
                                                            (λ d h. ground arith))
                                                            λ h18.
                                                            if_rule (IsLongest c l start)
                                                            (c == b'&')
                                                            (one_or_two-IsLongest b'&' b'&' and_and
                                                            ampersand refl refl
                                                            (λ d h. ground arith))
                                                            λ h19.
                                                            if_rule (IsLongest c l start)
                                                            (c == b'|') bar-IsLongest
                                                            λ h20.
                                                            stray-IsLongest
                                                            (rw (
                                                            h1, h2, h3, h4, h5, h6, h7, h8, h9, h10,
                                                            h11, h12, h13, h14, h15, h16, h17, h18,
                                                            h19,
                                                            ))
                                                            (λ d. rw (
                                                            h10, h11, h12, h13, h14, h15, h16, h17,
                                                            h18, h19, h20,
                                                            ))
