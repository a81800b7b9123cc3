-- ===== src/Api/Tests/Secrets.antt =====
-- The theorems on the second factor, the reset links and the refresh tokens, at small databases.
use nextballup.Prelude.{
  ◌+◌, ◌<◌, ◌≡◌, refl, true, false, none, some, [], ◌∷◌, arith, leb, find_where, update_where, ◌&&◌,
  any_where,
}
use nextballup.Core.Text.{codes, text_eq, lower}
use nextballup.Db.{Db, UserTotpSecret, PasswordResetToken}
use nextballup.Worker.Tests.{store}
use nextballup.Api.Tests.{coach}
use nextballup.Api.Mfa.{Authenticator, enrolled, check_totp, require_mfa_for_login_if_enabled}
use nextballup.Api.Mfa.Once.{require_mfa_once}
use nextballup.Api.PasswordReset.{
  Consumption, Rejection, consume_password_reset_token, issue_password_reset_token,
}
use nextballup.Api.PasswordReset.Once.{consume_password_reset_token_once}
use nextballup.Api.PasswordReset.Supersede.{issue_password_reset_token_supersedes}
use nextballup.Api.PasswordReset.Request.{
  ResetMail, request_password_reset, request_for, send_reset,
}
use nextballup.Api.PasswordReset.Undelivered.{request_password_reset_undelivered}
use nextballup.Api.PasswordReset.Confirm.{reset_password}
use nextballup.Api.PasswordReset.SignedOut.{Closed, reset_password_signs_out}
use nextballup.Api.RateLimit.{RateLimiter, enforce_rate_limit}
use nextballup.Api.Result.{err}
use nextballup.Api.Sessions.{
  TokenReader, NextToken, unauthenticated, refresh, user_from_refresh_token, session_of_user,
  check_session, is_session_of, settle_refresh, rotate,
}
use nextballup.Api.Sessions.Replay.{refresh_replay}

-- The code of a counter is its number in two digits of 0 and 1.
abbrev authenticator : Authenticator
authenticator = record {
  step_seconds = 30;
  digits = 1;
  hotp = λ _ counter. (48 + counter) ∷ [];
  hash_recovery_code = λ t. t;
  is_digit = λ c. leb 48 c && leb c 57;
}

abbrev secret : UserTotpSecret
secret = record {
  id = 1;
  user_id = 7;
  secret_ciphertext = codes "x";
  confirmed_at = some 10;
  disabled_at = none;
  last_used_at = none;
}

abbrev secured : Db
secured = record store { totp_secrets = secret ∷ [] }

abbrev stamped : UserTotpSecret
stamped = record secret { last_used_at = some 90 }

-- The clock of the database is 100, in step 3; step 5 begins at 150.
require_mfa_once_example : (3 < 5) × (codes "5" ≡ codes "5")
unfolding require_mfa_for_login_if_enabled check_totp find_where enrolled update_where
require_mfa_once_example =
    require_mfa_once authenticator coach (codes "3") secured secret (omega arith) refl refl refl
      (codes "5") 150 stamped refl refl

abbrev link : PasswordResetToken
link = record { id = 1; user_id = 7; token_hash = codes "a"; expires_at = 900; used_at = none }

abbrev linked : Db
linked = record store { users = coach ∷ []; password_reset_tokens = link ∷ [] }

abbrev redeemed : Db
redeemed = (consume_password_reset_token (λ t. t) (codes "a") linked).1

consume_password_reset_token_once_example :
    consume_password_reset_token (λ t. t) (codes "a") (record redeemed { now = 200 })
    ≡ (Consumption.rejected Rejection.used, record redeemed { now = 200 })
unfolding consume_password_reset_token find_where
consume_password_reset_token_once_example =
    consume_password_reset_token_once (λ t. t) (codes "a") linked {user = coach} {token = link} refl
      200

abbrev reissued : Db
reissued = record linked {
  password_reset_tokens =
      record { id = 2; user_id = 7; token_hash = codes "b"; expires_at = 3700; used_at = none }
      ∷ record link { used_at = some 100 }
      ∷ [];
}

issue_password_reset_token_supersedes_example : codes "b" ≡ codes "b"
unfolding issue_password_reset_token consume_password_reset_token find_where update_where
issue_password_reset_token_supersedes_example =
    issue_password_reset_token_supersedes (λ t. t) 60 7 (codes "b") 2 linked {after = reissued} refl
      (codes "b") 200 {user = coach}
      {token = record {
        id = 2;
        user_id = 7;
        token_hash = codes "b";
        expires_at = 3700;
        used_at = none;
      }}
      refl refl

-- A token reads as a claim of the coach, with its own text as its id.
abbrev reader : TokenReader
reader = record {
  decode_token = λ now token. some (record { sub = 7; jti = token; sv = 0 });
  hash_refresh_jti = λ t. t;
}

abbrev signed_in : Db
signed_in = record store {
  users = coach ∷ [];
  refresh_sessions =
      record {
        id = 1;
        user_id = 7;
        jti_hash = codes "a";
        expires_at = 900;
        revoked_at = none;
        revoked_reason = none;
        replaced_by_session_id = none;
      }
      ∷ [];
}

abbrev second : NextToken
second = record { id = 2; jti = codes "b"; expires_at = 1000 }

abbrev third : NextToken
third = record { id = 3; jti = codes "c"; expires_at = 1100 }

abbrev rotated : Db
rotated = (refresh reader second (some (codes "a")) signed_in).1

refresh_replay_example :
    ((refresh reader third (some (codes "a")) (record rotated { now = 200 })).0
      ≡ err unauthenticated)
    × ((refresh reader third
          (some (codes "b"))
          (record (refresh reader third (some (codes "a")) (record rotated { now = 200 })).1 {
            now = 300;
          })).0
        ≡ err unauthenticated)
unfolding refresh user_from_refresh_token session_of_user check_session is_session_of settle_refresh
    rotate find_where any_where text_eq
refresh_replay_example =
    refresh_replay reader second (codes "a") signed_in
      {c = record { sub = 7; jti = codes "b"; sv = 0 }} refl third third 200 300 (codes "b") refl
      refl

abbrev limiter : RateLimiter
limiter = record { redis_url = true; fail_closed = true; count = some 1 }

abbrev resetting : Db
resetting = record signed_in { password_reset_tokens = link ∷ [] }

abbrev was_reset : Db
was_reset = (reset_password limiter 5 (λ t. t) (λ t. t) (codes "a") (codes "new") resetting).1

reset_password_signs_out_example :
    Closed coach (codes "new") was_reset
    × ((refresh reader second (some (codes "a")) (record was_reset { now = 300 })).0
        ≡ err unauthenticated)
unfolding reset_password enforce_rate_limit consume_password_reset_token find_where text_eq
reset_password_signs_out_example =
    reset_password_signs_out limiter 5 (λ t. t) (λ t. t) (codes "a") (codes "new") resetting link
      coach refl refl refl reader second (codes "a") 300 refl refl (omega arith)

abbrev lost_mail : ResetMail
lost_mail = record {
  hash_token = λ t. t;
  ttl_minutes = 60;
  provider = codes "smtp";
  raw_token = codes "b";
  token_id = 2;
  delivered = false;
}

abbrev requested : Db
requested = (request_password_reset limiter 5 lost_mail (codes "C@x") linked).1

request_password_reset_undelivered_example :
    (r : Rejection) × (consume_password_reset_token
        (λ t. t)
        (codes "b")
        (record requested { now = 300 })
      ≡ (Consumption.rejected r, record requested { now = 300 }))
unfolding request_password_reset enforce_rate_limit issue_password_reset_token find_where text_eq
    lower request_for send_reset
request_password_reset_undelivered_example =
    request_password_reset_undelivered limiter 5 lost_mail (codes "C@x") linked coach refl refl refl
      300
