-- ===== src/Secrets/Tests.antt =====
-- Libraries whose bytes are characters.
use Prim.Native.Char.{Char}
use cobalt_dingo.Prelude.{
  ℕ, suc, ◌≡◌, refl, ap, sym, ok-injective, some, List, [], ◌∷◌, String, length, Result, ok,
}
use cobalt_dingo.Secrets.{Library}
use cobalt_dingo.Secrets.Sealed.{Laws}

abbrev text_of : List Char → String
text_of [] = String.[]
text_of (c ∷ cs) = String.◌∷◌ c (text_of cs)

unfoldable pub chars_of : String → List Char
chars_of String.[] = []
chars_of (String.◌∷◌ c s) = c ∷ chars_of s

-- The world is the number of nonces drawn.
abbrev pub plain : Library Char ℕ
plain = record {
  nonce_size = 1;
  random = λ w. (ok ("n" ∷ []), suc w);
  seal = λ nonce text. chars_of text;
  open_sealed = λ nonce raw. some (text_of raw);
  encode = text_of;
  decode = λ text. some (chars_of text);
  hmac = λ text. text;
}

chars_of-text_of : (cs : List Char) → chars_of (text_of cs) ≡ cs
unfolding chars_of
chars_of-text_of [] = refl
chars_of-text_of (c ∷ cs) = ap (λ l. c ∷ l) (chars_of-text_of cs)

text_of-chars_of : (s : String) → text_of (chars_of s) ≡ s
unfolding chars_of
text_of-chars_of String.[] = refl
text_of-chars_of (String.◌∷◌ c s) = ap (λ t. String.◌∷◌ c t) (text_of-chars_of s)

pub plain-Laws : Laws plain
plain-Laws = record {
  decodes = λ raw. ap some (chars_of-text_of raw);
  opens = λ nonce text. ap some (text_of-chars_of text);
  fills = λ w w1 nonce e.
      ap length (sym (ok-injective _ _ (ap (λ (p : Result String (List Char) × ℕ). p.0) e)));
}
