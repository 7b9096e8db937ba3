-- ===== src/Auth/Tokens/Laws.antt =====
-- What a token that was issued says when it comes back.
use growth_track.Session.{Env, World, ok}
use growth_track.Auth.Tokens.{Payload, TokenContext, create_access_token, decode_access_token}
use growth_track.Prelude.{ℕ, suc, ◌+◌, ◌*◌, ◌≤◌, String, ◌≡◌, refl, some}

-- What the library documents: a token decodes with its key from the time of its issue to a second
-- before it expires, since times are cut to whole seconds; and a UUID is read back from its text.
pub record IsJwt (t : TokenContext) : Type 0 where
  pub decode-encode :
      (p : Payload) (key : String) (now : ℕ)
      → p.iat ≤ now
      → now + 1000000 ≤ p.exp
      → (q : Payload) × (t.decode now (t.encode p key) key ≡ some q)
        × (q.sub ≡ p.sub)
        × (q.jti ≡ p.jti)
  pub uuid-str : (k : ℕ) → t.uuid (t.str k) ≡ some k

module _ (t : TokenContext) (jwt : IsJwt t) (env : Env) (user_id : ℕ) (w : World) where
  abbrev payload : Payload
  payload = record {
    sub = some (t.str user_id);
    jti = some (t.str (env.uuid4 (suc w.calls)));
    iat = env.now w.calls;
    exp = env.now w.calls + t.jwt_expiry_minutes * 60000000;
  }

  -- A token that is issued for a user decodes, until a second before it expires, to that user's id and
  -- the token id drawn at its issue, if the JWT library does what it documents.
  pub decode_access_token-create :
      (token : String) × ((create_access_token t env user_id w).0 ≡ ok token)
      × ((now : ℕ)
          → env.now w.calls ≤ now
          → now + 1000000 ≤ env.now w.calls + t.jwt_expiry_minutes * 60000000
          → decode_access_token t now token
            ≡ some (record { user_id = user_id; jti = env.uuid4 (suc w.calls) }))
  unfolding create_access_token decode_access_token
  decode_access_token-create = (
    t.encode payload t.jwt_signing_key,
    refl,
    λ now a b.
        let (q, e, f, g) = jwt.decode-encode payload t.jwt_signing_key now a b in
        rw (e, f, g, jwt.uuid-str user_id, jwt.uuid-str (env.uuid4 (suc w.calls))),
  )
