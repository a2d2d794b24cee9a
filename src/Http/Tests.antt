-- ===== src/Http/Tests.antt =====
-- A user who is known by a password, the site, and requests to it.
use estate_server.Base.{
  Bool, Key, List, Time, [], arith, count_where, err, find_first, if◌then◌else◌, kakao_unavailable,
  none, refl, some, true, ◌+◌, ◌==◌, ◌∷◌, ◌≡◌, ◌≤◌, ◌⊎◌,
}
use estate_server.Auth.State.{create, AuthState, UserRow, TokenRow, tenant}
use estate_server.Auth.User.{User}
use estate_server.Auth.Users.{find_by_email, reconstitute}
use estate_server.Auth.Tokens
use estate_server.Auth.Tokens.{new_row}
use estate_server.Auth.Access.{login}
use estate_server.RateLimit.Window.{can_activate, check_all, hit, count_of}
use estate_server.Auth.Session.{issue, TokenPair, TokenPayload}
use estate_server.Auth.Access.{OnboardingPayload}
use estate_server.Auth.Access.Invariant.{HasOwners}
use estate_server.Http.Bearer.{Jwt, access, onboarding, extract_user_id}
use estate_server.Http.Server.{
  HttpRequest, ServerState, answered, status, serve, serve_all, run_guarded,
}
use estate_server.Http.AuthApi.{
  Site, tokens, of_user, user_view, sessions, refresh_handler, is_guarded, validate_body, handle,
  method_of, limit_of, success_of, routes, AuthCall,
}
use estate_server.Http.Guarding.{reads_user, unauthenticated_refused}
use estate_server.Http.Reachable.{serve_all-IsValid}
use estate_server.Http.SignedIn.{login_request, profile_request, login_profile, HasUniqueIds}
use estate_server.Http.Onboarding.{logout_all_request, AllRevoked, onboarding_revokes_all}

abbrev alice : UserRow
alice = record {
  id = 1;
  email = 11;
  name = 12;
  password_hash = some 7042;
  role = tenant;
  deleted_at = none;
}

abbrev token_row : TokenRow
token_row = record {
  id = 5;
  user_id = 1;
  token_hash = 1099;
  family_id = 3;
  expires_at = 1000000;
  used_at = none;
  revoked_at = none;
  created_at = 0;
}

abbrev known : AuthState
known = record {
  users = alice ∷ [];
  accounts = [];
  tokens = token_row ∷ [];
  next_id = 6;
  next_uuid = 4;
  draws = 0;
}

abbrev start : ServerState AuthState
start = record { counters = []; tables = known }

abbrev newcomer : OnboardingPayload
newcomer = record { provider_id = 77; email = 21; name = 22 }

abbrev alice_claims : TokenPayload
alice_claims = record { sub = 1; email = 11; role = tenant; fam = 4 }

abbrev jwt : Jwt
jwt = record {
  sign = λ now seconds c. elim c [ access p ↦ p.sub + 5000 | onboarding p ↦ 9000 ];
  verify = λ now token.
      if token == 5001
      then some (access alice_claims)
      else if token == 9000
      then some (onboarding newcomer)
      else none;
  expires_in = 900;
}

abbrev site : Site
site = record {
  gate = record {
    jwt = jwt;
    limits = record { window_sec = none; user_max = none; ip_max = none };
    message_of = λ e. 0;
  };
  base = record {
    random_token = λ n. n + 100;
    sha256 = λ k. k + 1000;
    sign = λ p. 0;
    compare = λ password hash. password + 7000 == hash;
    hash_password = λ password. password + 7000;
    ttl_days = none;
  };
  exchange = λ code redirect. err kakao_unavailable;
  text = record { trim = λ k. k; is_email = λ k. true; size = λ k. 8 };
  path_of = λ call. 0;
}

abbrev forged : HttpRequest AuthCall
forged = record { ip = some 3; bearer = some 1; call = sessions }

forged_fails : (token : Key) → forged.bearer ≡ some token → site.gate.jwt.verify 5 token ≡ none
forged_fails token e = ground arith

forged_guarded : reads_user forged.call ≡ true
forged_guarded = refl

unauthenticated_refused_example :
    ((status (serve site.gate (routes site) 5 6 forged start).0 ≡ 401)
      ⊎ (status (serve site.gate (routes site) 5 6 forged start).0 ≡ 429))
    × ((serve site.gate (routes site) 5 6 forged start).1.tables ≡ known)
unauthenticated_refused_example =
    unauthenticated_refused site 5 6 forged start forged_guarded forged_fails

one_row : (p : TokenRow → Bool) → count_where p (token_row ∷ []) ≤ 1
unfolding count_where
one_row p = ground arith

known-HasOwners : HasOwners known
known-HasOwners = (
  λ family_id. 1,
  record {
    ids = (omega arith, tt);
    families = (omega arith, tt);
    owned = (refl, tt);
    one_id = λ id. one_row _;
    one_hash = λ hash. one_row _;
    one_unused = λ family_id. one_row _;
  },
)

abbrev session_requests : List (Time × Time × HttpRequest AuthCall)
session_requests =
    (5, 6, login_request (some 3) none 11 42)
    ∷ (7, 8, record { ip = some 3; bearer = none; call = refresh_handler (some 99) })
    ∷ (9, 10, logout_all_request (some 3) 5001)
    ∷ []

serve_all-IsValid_example :
    HasOwners (serve_all site.gate (routes site) session_requests start).tables
serve_all-IsValid_example = serve_all-IsValid site session_requests start known-HasOwners

abbrev alice_user : User
alice_user = record { id = some 1; email = 11; name = 12; password_hash = some 7042; role = tenant }

abbrev alice_pair : TokenPair
alice_pair = record { access_token = 5001; refresh_token = 100 }

one_user : HasUniqueIds known
unfolding count_where
one_user id = ground arith

alice_known : find_by_email 11 known ≡ some alice_user
unfolding find_by_email find_first reconstitute
alice_known = refl

alice_logs_in :
    (serve site.gate (routes site) 5 6 (login_request (some 3) none 11 42) start).0
    ≡ answered 201 (tokens alice_pair)
unfolding serve run_guarded is_guarded validate_body handle can_activate check_all method_of
    limit_of extract_user_id login find_by_email find_first reconstitute issue Tokens.save new_row
    create success_of hit count_of
alice_logs_in = refl

login_profile_example :
    (serve site.gate
      (routes site)
      7
      8
      (profile_request none 5001)
      (serve site.gate (routes site) 5 6 (login_request (some 3) none 11 42) start).1).0
    ≡ answered 200 (of_user (user_view alice_user))
login_profile_example =
    login_profile site 5 6 (some 3) none 11 42 7 8 none alice_user alice_pair start one_user
      alice_known alice_logs_in refl

onboarding_revokes_all_example :
    ((status (serve site.gate (routes site) 5 6 (logout_all_request (some 3) 9000) start).0 ≡ 429)
      × ((serve site.gate (routes site) 5 6 (logout_all_request (some 3) 9000) start).1.tables
          ≡ known))
    ⊎ ((status (serve site.gate (routes site) 5 6 (logout_all_request (some 3) 9000) start).0 ≡ 201)
        × AllRevoked
            (serve site.gate (routes site) 5 6 (logout_all_request (some 3) 9000) start).1.tables)
onboarding_revokes_all_example = onboarding_revokes_all site 5 6 (some 3) 9000 newcomer refl start
