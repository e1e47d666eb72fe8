-- ===== src/Secrets/Sealed.antt =====
-- What is sealed, and what opens it.
use cobalt_dingo.Prelude.{
  ◌≡◌, refl, sym, ap, ap₂, ◌∙◌, false, some, List, [], ◌∷◌, ◌++◌, String, length, length-append,
  ltb, not_true, ltb→lt, arith, if◌then◌else◌, Result, ok, err, ok-injective,
}
use cobalt_dingo.Prelude.Actions.{pure, and_then-ok}
use cobalt_dingo.Secrets.{
  Library, SecretError, too_short, no_nonce, take, drop, seal_secret, open_raw, authentic,
  open_secret,
}

take-append : {A : Type 0} (xs ys : List A) → take (length xs) (xs ++ ys) ≡ xs
take-append [] ys = refl
take-append (x ∷ xs) ys = ap (λ l. x ∷ l) (take-append xs ys)

drop-append : {A : Type 0} (xs ys : List A) → drop (length xs) (xs ++ ys) ≡ ys
drop-append [] ys = refl
drop-append (x ∷ xs) ys = drop-append xs ys

-- What the libraries document: base64 decodes what it encodes, GCM opens what it sealed under the
-- same nonce, and the random source fills the nonce.
pub record Laws {B W : Type 0} (lib : Library B W) : Type 0 where
  pub decodes : (raw : List B) → lib.decode (lib.encode raw) ≡ some raw
  pub opens :
      (nonce : List B) (text : String) → lib.open_sealed nonce (lib.seal nonce text) ≡ some text
  pub fills :
      (w w1 : W) (nonce : List B) → lib.random w ≡ (ok nonce, w1) → length nonce ≡ lib.nonce_size

module _ {B W : Type 0} (lib : Library B W) (laws : Laws lib) where
  opened :
      (nonce : List B) (text : String)
      → length nonce ≡ lib.nonce_size
      → open_secret lib (lib.encode (nonce ++ lib.seal nonce text)) ≡ ok text
  unfolding open_secret
  opened nonce text size =
      let raw = nonce ++ lib.seal nonce text in
      let long : ltb (length raw) lib.nonce_size ≡ false = not_true _ (λ short.
        let less = ltb→lt (length raw) lib.nonce_size short in
        omega (arith, size, less, length-append nonce (lib.seal nonce text))) in
      let first : take lib.nonce_size raw ≡ nonce =
        ap (λ n. take n raw) (sym size) ∙ take-append nonce (lib.seal nonce text) in
      let second : drop lib.nonce_size raw ≡ lib.seal nonce text =
        ap (λ n. drop n raw) (sym size) ∙ drop-append nonce (lib.seal nonce text) in
      ap (open_raw lib) (laws.decodes raw)
      ∙ ap
          (λ b.
            if b
            then err too_short
            else authentic lib
                (lib.open_sealed (take lib.nonce_size raw) (drop lib.nonce_size raw)))
          long
      ∙ ap₂ (λ a b. authentic lib (lib.open_sealed a b)) first second
      ∙ ap (authentic lib) (laws.opens nonce text)

  -- What was sealed opens to the secret.
  pub seal_secret-open_secret :
      (text sealed : String) (w w1 : W)
      → seal_secret lib text w ≡ (ok sealed, w1)
      → open_secret lib sealed ≡ ok text
  unfolding seal_secret
  seal_secret-open_secret text sealed w w1 e =
      let seal_with = λ (nonce : List B). pure (lib.encode (nonce ++ lib.seal nonce text)) in
      let (nonce, w2, drawn, same) = and_then-ok lib.random no_nonce seal_with w w1 sealed e in
      let is_sealed = ok-injective _ _ (ap (λ (p : Result SecretError String × W). p.0) same) in
      ap (open_secret lib) (sym is_sealed) ∙ opened nonce text (laws.fills w w2 nonce drawn)
