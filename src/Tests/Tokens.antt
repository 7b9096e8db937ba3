-- ===== src/Tests/Tokens.antt =====
-- The theorem on access tokens, with a plain encoding in place of JWT.
use Prim.Native.Char.{code}
use growth_track.Auth.Tokens.{Payload, TokenContext, create_access_token, decode_access_token}
use growth_track.Auth.Tokens.Laws.{IsJwt, decode_access_token-create}
use growth_track.Session.{ok}
use growth_track.Tests.Samples.{sample_env, sample_world}
use growth_track.Prelude.{
  ℕ, zero, suc, ◌+◌, ◌*◌, ◌≤◌, String, ◌≡◌, refl, ap, ◌∙◌, Option, none, some, ◌==◌, if◌then◌else◌,
}

-- A text with a mark before each character and at its end, and what follows.
abbrev chars : String → String → String
chars String.[] rest = String.◌∷◌ "e" rest
chars (String.◌∷◌ c s) rest = String.◌∷◌ "c" (String.◌∷◌ c (chars s rest))

abbrev take_chars : String → String × String
take_chars String.[] = (String.[], String.[])
take_chars (String.◌∷◌ m String.[]) = (String.[], String.[])
take_chars (String.◌∷◌ m (String.◌∷◌ c s)) =
    let rest = take_chars s in
    if code m == 101 then (String.[], String.◌∷◌ c s) else (String.◌∷◌ c rest.0, rest.1)

take_chars-chars : (s rest : String) → take_chars (chars s rest) ≡ (s, rest)
take_chars-chars String.[] String.[] = refl
take_chars-chars String.[] (String.◌∷◌ d t) = refl
take_chars-chars (String.◌∷◌ c s) rest = ap (λ x. (String.◌∷◌ c x.0, x.1)) (take_chars-chars s rest)

abbrev put : Option String → String → String
put none rest = String.◌∷◌ "n" rest
put (some s) rest = String.◌∷◌ "s" (chars s rest)

abbrev take_text : String → Option String × String
take_text String.[] = (none, String.[])
take_text (String.◌∷◌ m s) =
    let rest = take_chars s in if code m == 110 then (none, s) else (some rest.0, rest.1)

take_text-put : (o : Option String) (rest : String) → take_text (put o rest) ≡ (o, rest)
take_text-put none rest = refl
take_text-put (some s) rest = ap (λ x. (some x.0, x.1)) (take_chars-chars s rest)

abbrev unary : ℕ → String
unary zero = String.[]
unary (suc k) = String.◌∷◌ "x" (unary k)

abbrev length_of : String → ℕ
length_of String.[] = 0
length_of (String.◌∷◌ c s) = suc (length_of s)

length_of-unary : (k : ℕ) → length_of (unary k) ≡ k
length_of-unary zero = refl
length_of-unary (suc k) = ap suc (length_of-unary k)

abbrev decoded_text : String → Payload
decoded_text token = record {
  sub = (take_text token).0;
  jti = (take_text (take_text token).1).0;
  iat = 0;
  exp = 0;
}

abbrev plain : TokenContext
plain = record {
  encode = λ p key. put p.sub (put p.jti String.[]);
  decode = λ now token key. some (decoded_text token);
  str = unary;
  uuid = λ text. some (length_of text);
  jwt_signing_key = "key";
  jwt_expiry_minutes = 480;
}

plain-IsJwt : IsJwt plain
plain-IsJwt = record {
  decode-encode = λ p key now a b.
      let e = take_text-put p.sub (put p.jti String.[]) in
      let f = take_text-put p.jti String.[] in
      (
        decoded_text (put p.sub (put p.jti String.[])),
        refl,
        ap (λ x. x.0) e,
        ap (λ x. (take_text x.1).0) e ∙ ap (λ x. x.0) f,
      );
  uuid-str = λ k. ap some (length_of-unary k);
}

decode_access_token-create_example :
    (token : String) × ((create_access_token plain sample_env 1 sample_world).0 ≡ ok token)
    × ((now : ℕ)
        → 1000 ≤ now
        → now + 1000000 ≤ 1000 + 480 * 60000000
        → decode_access_token plain now token ≡ some (record { user_id = 1; jti = 501 }))
decode_access_token-create_example =
    decode_access_token-create plain plain-IsJwt sample_env 1 sample_world
