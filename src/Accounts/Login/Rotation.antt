-- ===== src/Accounts/Login/Rotation.antt =====
-- The rotation of refresh tokens: what a token is good for after it was used.
use motogram.Prelude.{ℕ, ◌+◌, ◌/◌, ◌<◌, ◌≡◌, ◌≢◌, refl, true, false, some, is_some, arith, ==_iff}
use motogram.Prelude.Action.{ok, IsRefused}
use motogram.Accounts.Schema.{
  access, refresh, Primitives, Tables, Store, access_secret, refresh_secret, User,
}
use motogram.Accounts.Tokens.{
  issue_token_pair, revoke_refresh, is_refresh_active, access_ttl, refresh_ttl, TokenPair,
}
use motogram.Accounts.Login.{refresh_tokens, rotate}

module _ (P : Primitives) (T : Tables P) where
  -- A rotation with a key that is not there.
  rotate-IsRefused :
      (s : Store P T) (jti now user_id old : ℕ)
      → is_some (T.refresh_key.find_unique (user_id, old) s.refresh_keys) ≡ false
      → IsRefused (rotate P T jti now user_id old) s
  unfolding rotate is_refresh_active
  rotate-IsRefused s jti now user_id old gone = ground arith

  rotate_burns :
      (s : Store P T) (jti now user_id old : ℕ)
      → jti ≢ old
      → is_some (
          T.refresh_key.find_unique
            (user_id, old)
            (rotate P T jti now user_id old s).1.refresh_keys)
        ≡ false
  unfolding rotate is_refresh_active revoke_refresh issue_token_pair
  rotate_burns s jti now user_id old fresh = ground (
    arith,
    ==_iff user_id user_id,
    ==_iff old old,
    ==_iff jti old,
    T.refresh_key.find-delete (user_id, old) (user_id, old) s.refresh_keys,
    T.refresh_key.find-write (user_id, old) (user_id, jti) tt
        (T.refresh_key.delete (user_id, old) s.refresh_keys),
  )

  abbrev pair_of : (jti now user_id : ℕ) → User P → TokenPair P
  pair_of jti now user_id u = record {
    access_token = P.sign access_secret now access_ttl (access user_id u.username u.role);
    refresh_token = P.sign refresh_secret now refresh_ttl (refresh user_id jti);
  }

  abbrev rotated : (jti user_id old : ℕ) → Store P T → Store P T
  rotated jti user_id old s = record s {
    refresh_keys =
        T.refresh_key.write (user_id, jti) tt (T.refresh_key.delete (user_id, old) s.refresh_keys);
  }

  rotate_done :
      (s : Store P T) (jti now user_id old : ℕ) (u : User P)
      → T.user.find_unique user_id s.users ≡ some u
      → u.is_banned ≡ false
      → is_some u.deleted_at ≡ false
      → is_some (T.refresh_key.find_unique (user_id, old) s.refresh_keys) ≡ true
      → rotate P T jti now user_id old s
        ≡ (ok (pair_of jti now user_id u), rotated jti user_id old s)
  unfolding rotate is_refresh_active revoke_refresh issue_token_pair
  rotate_done s jti now user_id old u found free live active = ground arith

  module _ (s : Store P T) (issued jti now user_id old : ℕ) (fresh : jti ≢ old)
      (valid : now / 1000 < issued / 1000 + refresh_ttl) where
    -- Once a refresh token was presented, within its time to live and with a fresh identifier for
    -- the next pair, presenting the same token again within its time to live throws and changes
    -- nothing, whatever the first call met.
    pub refresh_replay :
        (again later : ℕ)
        → later / 1000 < issued / 1000 + refresh_ttl
        → let token = P.sign refresh_secret issued refresh_ttl (refresh user_id old) in
          let s' = (refresh_tokens P T jti now token s).1 in
          IsRefused (refresh_tokens P T again later token) s'
    unfolding refresh_tokens
    refresh_replay again later still =
        rw (P.verify-sign refresh_secret issued refresh_ttl now (refresh user_id old) valid) (
          rw (P.verify-sign refresh_secret issued refresh_ttl later (refresh user_id old) still)
            (rotate-IsRefused _ again later user_id old (rotate_burns s jti now user_id old fresh)))

    refresh_continues :
        (u : User P) (again later : ℕ)
        → T.user.find_unique user_id s.users ≡ some u
        → u.is_banned ≡ false
        → is_some u.deleted_at ≡ false
        → is_some (T.refresh_key.find_unique (user_id, old) s.refresh_keys) ≡ true
        → later / 1000 < now / 1000 + refresh_ttl
        → let token = P.sign refresh_secret issued refresh_ttl (refresh user_id old) in
          let (r, s') = refresh_tokens P T jti now token s in
          (r ≡ ok (pair_of jti now user_id u))
          × ((refresh_tokens P T again later (pair_of jti now user_id u).refresh_token s').0
              ≡ ok (pair_of again later user_id u))
    unfolding refresh_tokens
    refresh_continues u again later found free live active still =
        rw (P.verify-sign refresh_secret issued refresh_ttl now (refresh user_id old) valid) (
          rw (P.verify-sign refresh_secret now refresh_ttl later (refresh user_id jti) still) (
            rw (rotate_done s jti now user_id old u found free live active) (
              refl,
              rw
                  (rotate_done (rotated jti user_id old s) again later user_id jti u found free live
                    there)
                  refl,
            )))
      where
        there :
            is_some
              (T.refresh_key.find_unique (user_id, jti) (rotated jti user_id old s).refresh_keys)
            ≡ true
        there = ground (
          arith,
          ==_iff user_id user_id,
          ==_iff jti jti,
          T.refresh_key.find-write (user_id, jti) (user_id, jti) tt
              (T.refresh_key.delete (user_id, old) s.refresh_keys),
        )
