-- ===== src/Auth/Tests/Accounts.antt =====
-- The password of an account.
use sgd_backend.Base.{◌≡◌, refl, none, some, List, [], ◌∷◌, find_if}
use sgd_backend.Base.Actions.{returns}
use sgd_backend.Auth.Store.{Credential, State, find_by_email}
use sgd_backend.Auth.Lockout.{failures, dummy_password, check_password}
use sgd_backend.Auth.Lockout.Locks.{check_password-dummy}
use sgd_backend.Auth.Passwords.{reset_password}
use sgd_backend.Auth.Tests.{Command, last_value, log_redis, good_credential, env_at, start}

five_failures : failures log_redis (env_at 1000 12) 70 start ≡ 5
unfolding failures last_value
five_failures = refl

abbrev unfinished : Credential
unfinished = record good_credential { password_hash = none }

abbrev invited : State (List Command)
invited = record start { credentials = unfinished ∷ [] }

unfinished_found : find_by_email 70 invited.credentials ≡ some unfinished
unfolding find_by_email find_if
unfinished_found = refl

check_password-dummy_example :
    (check_password log_redis (env_at 1000 12) 70 dummy_password invited).0 ≡ returns unfinished
check_password-dummy_example =
    check_password-dummy log_redis (env_at 1000 12) 70 unfinished invited unfinished_found refl refl
      refl refl

abbrev reset_state : State (List Command)
reset_state = (reset_password log_redis (env_at 1000 12) 90 "new" start).1
