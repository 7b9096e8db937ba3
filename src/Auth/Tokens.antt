-- ===== src/Auth/Tokens.antt =====
-- Access tokens (api/auth/tokens.py).
pub mod Laws
use growth_track.Session.{Session, Env, return, external, ◌>>=◌}
use growth_track.Auth.Sessions.{AccessTokenClaims}
use growth_track.Prelude.{ℕ, ◌+◌, ◌*◌, String, Option, none, some}

-- The claims of a payload; `iat` and `exp` in microseconds.
pub record Payload : Type 0 where
  pub sub : Option String
  pub jti : Option String
  pub iat : ℕ
  pub exp : ℕ

-- The JWT library with HS256, `str` and the constructor of UUIDs, and the two settings.
pub record TokenContext : Type 0 where
  pub encode : Payload → String → String
  -- The payload of a token at a time, unless the library raises a PyJWTError.
  pub decode : ℕ → String → String → Option Payload
  pub str : ℕ → String
  pub uuid : String → Option ℕ
  pub jwt_signing_key : String
  pub jwt_expiry_minutes : ℕ

module _ (t : TokenContext) where
  unfoldable pub create_access_token : Env → ℕ → Session String
  create_access_token env user_id = do
    now ← external env.now
    jti ← external env.uuid4
    return (
        t.encode
          (record {
            sub = some (t.str user_id);
            jti = some (t.str jti);
            iat = now;
            exp = now + t.jwt_expiry_minutes * 60000000;
          })
          t.jwt_signing_key)

  -- `uuid.UUID(payload[...])`, where a KeyError or ValueError becomes an InvalidTokenError.
  abbrev pub uuid_claim : Option String → Option ℕ
  uuid_claim none = none
  uuid_claim (some text) = t.uuid text

  abbrev pub claims_of : Option ℕ → Option ℕ → Option AccessTokenClaims
  claims_of none jti = none
  claims_of (some user_id) none = none
  claims_of (some user_id) (some jti) = some (record { user_id = user_id; jti = jti })

  abbrev pub decoded : Option Payload → Option AccessTokenClaims
  decoded none = none
  decoded (some payload) = claims_of (uuid_claim payload.sub) (uuid_claim payload.jti)

  -- `none` is a PyJWTError.
  unfoldable pub decode_access_token : ℕ → String → Option AccessTokenClaims
  decode_access_token now token = decoded (t.decode now token t.jwt_signing_key)
