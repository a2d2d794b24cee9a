-- ===== src/Kakao/Tests.antt =====
-- A login while Kakao answers the token, and 503 to the profile twice.
use estate_server.Base.{[], err, inr, kakao_unavailable, none, refl, some, ◌==◌, ◌≡◌}
use estate_server.Base.Int.{pos}
use estate_server.Auth.State.{AuthState}
use estate_server.Auth.Session.{AuthEnv}
use estate_server.Auth.Access.{kakao_login}
use estate_server.Kakao.Client.{
  Kakao, api_error, attempt, done, failed, response, transient_only, is_transient,
  exchange_and_fetch,
}
use estate_server.Kakao.Failures.{code_of, kakao_login_fails}

abbrev kakao : Kakao
kakao = record {
  token_policy = λ outcomes. outcomes 0;
  profile_policy = λ outcomes. outcomes 1;
  token_answer = λ code uri n. response 200 (some 77);
  profile_answer = λ token n. response 503 none;
  default_name = 5;
}

abbrev env : AuthEnv
env = record {
  random_token = λ n. n;
  sha256 = λ k. k;
  sign = λ p. 1;
  compare = λ a b. a == b;
  hash_password = λ k. k;
  ttl_days = some (pos 14);
}

abbrev tables : AuthState
tables = record { users = []; accounts = []; tokens = []; next_id = 1; next_uuid = 1; draws = 0 }

answered : attempt (kakao.token_answer 6 7 0) ≡ done 77
unfolding attempt
answered = refl

refused : attempt (kakao.profile_answer 77 1) ≡ failed (api_error 503)
unfolding attempt
refused = refl

kakao_login_fails_example :
    kakao_login env
      (record { exchange = exchange_and_fetch kakao; sign = λ p. 9; verify = λ k. none })
      5
      6
      7
      tables
    ≡ (err (code_of (api_error 503)), tables)
kakao_login_fails_example =
    kakao_login_fails kakao 6 7 env (λ p. 9) (λ k. none) 5 tables (inr (77, answered, refused))

shown : code_of (api_error 503) ≡ kakao_unavailable
unfolding transient_only is_transient
shown = refl
