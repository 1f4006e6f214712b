-- ===== src/Accounts/Tokens.antt =====
-- apps/api/src/modules/auth/token.service.ts, over the refresh tokens of
-- apps/api/src/modules/redis/redis.service.ts. The identifier of a pair (a UUID) and the time are
-- arguments; that a Redis key expires is a change of the store from outside.
use motogram.Prelude.{ℕ, ◌*◌, Bool, is_some, String, ◌==◌}
use motogram.Prelude.Action.{
  ⊤, Action, pure, ◌>>=◌, ◌>>◌, write, find_unique, count, modify, delete_many,
}
use motogram.Accounts.Schema.{
  Role, access, refresh, access_secret, refresh_secret, Primitives, Tables, Store, refresh_key,
}

abbrev pub access_ttl : ℕ
access_ttl = 15 * 60

abbrev pub refresh_ttl : ℕ
refresh_ttl = 7 * 24 * 60 * 60

-- `TokenPair`, whose times to live are the two constants.
pub record TokenPair (P : Primitives) : Type 0 where
  pub access_token : P.Token
  pub refresh_token : P.Token

module _ (P : Primitives) (T : Tables P) where
  unfoldable pub issue_token_pair :
      (jti now user_id : ℕ) → String → Role → Action (Store P T) (TokenPair P)
  issue_token_pair jti now user_id username role = do
    write (refresh_key P T) (user_id, jti) tt
    pure (record {
      access_token = P.sign access_secret now access_ttl (access user_id username role);
      refresh_token = P.sign refresh_secret now refresh_ttl (refresh user_id jti);
    })

  unfoldable pub revoke_refresh : (user_id jti : ℕ) → Action (Store P T) ⊤
  revoke_refresh user_id jti =
      modify (λ s. record s { refresh_keys = T.refresh_key.delete (user_id, jti) s.refresh_keys })

  -- `keys` with a pattern, then `del`: the number of keys deleted.
  unfoldable pub revoke_all_for_user : ℕ → Action (Store P T) ℕ
  revoke_all_for_user user_id = do
    n ← count (refresh_key P T) (λ k _. k.0 == user_id)
    delete_many (refresh_key P T) (λ k _. k.0 == user_id)
    pure n

  unfoldable pub is_refresh_active : (user_id jti : ℕ) → Action (Store P T) Bool
  is_refresh_active user_id jti = do
    key ← find_unique (refresh_key P T) (user_id, jti)
    pure (is_some key)
