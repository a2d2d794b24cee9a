-- ===== src/Auth/Access/Invariant.antt =====
-- Every use case of src/auth/application keeps the token table valid: those that Session/Refresh.antt
-- does not have.
use estate_server.Base.{
  All-map, Bool, Bool-cases, Key, Option, Option-cases, Result-cases, Time, arith, get_or, inl, inr,
  is_key, no_key, none, refl, some, true, update_many, ◌==◌, ◌≡◌, ◌≤◌, ◌⊎◌,
}
use estate_server.Auth.State.{Role, TokenRow, AuthState}
use estate_server.Auth.User
use estate_server.Auth.User.{User, create_oauth, rename}
use estate_server.Auth.Users
use estate_server.Auth.Users.{find_by_id, find_by_provider, save_with_account, update}
use estate_server.Auth.Tokens.{
  of_user, set_revoked, revoke_all_by_user, find_by_hash, find_family_owner, revoke_family,
}
use estate_server.Auth.Session.{
  AuthEnv, SessionUser, session_user, issue, logout, logout_all, revoke_session, change_password_of,
}
use estate_server.Auth.Session.Invariant.{IsValid, update_many-IsValid}
use estate_server.Auth.Session.Issuing.{issue_new-IsValid}
use estate_server.Auth.Session.Refresh.{revoked-IsValid, revoked}
use estate_server.Auth.Session.Revocation.{
  revoke_session_own, revoke_session_other, change_password_cases, changed,
}
use estate_server.Auth.Access.{
  KakaoEnv, OnboardingPayload, is_allowed, sign_up, login, kakao_login, complete_kakao_signup,
  issue_for, update_profile, kakao,
}
use estate_server.Auth.Access.Login.{login_cases}

-- Valid for some naming of the owners of the sessions.
abbrev pub HasOwners : AuthState → Type 0
HasOwners s = (owner : Key → Key) × IsValid owner s

-- No token and no family is touched; ids may be drawn.
pub record KeepsTokens (s s' : AuthState) : Type 0 where
  pub tokens : s'.tokens ≡ s.tokens
  pub ids : s.next_id ≤ s'.next_id
  pub families : s'.next_uuid ≡ s.next_uuid

pub keeps-IsValid :
    (owner : Key → Key) (s s' : AuthState) → KeepsTokens s s' → IsValid owner s → IsValid owner s'
keeps-IsValid owner s s' k v = record {
  ids = rw k.tokens (All-map _ _ s.tokens (λ row h. omega (arith, k.ids)) v.ids);
  families = rw (k.tokens, k.families) v.families;
  owned = rw k.tokens v.owned;
  one_id = rw k.tokens v.one_id;
  one_hash = rw k.tokens v.one_hash;
  one_unused = rw k.tokens v.one_unused;
}

-- A revocation of any rows.
pub revoke_rows-IsValid :
    (owner : Key → Key) (p : TokenRow → Bool) (now : Time) (s : AuthState)
    → IsValid owner s
    → IsValid owner (record s { tokens = update_many p (set_revoked now) s.tokens })
revoke_rows-IsValid owner p now s v =
    update_many-IsValid owner p (set_revoked now)
      (λ row. record { id = refl; hash = refl; family = refl; user = refl; unused = λ h. h }) s v

sign_up-keeps :
    (env : AuthEnv) (email name password : Key) (role : Option Role) (s : AuthState)
    → KeepsTokens s (sign_up env email name password role s).1
unfolding sign_up User.create Users.save
sign_up-keeps env email name password role s = record {
  tokens = ground arith;
  ids = ground arith;
  families = ground arith;
}

update-keeps : (u : User) (s : AuthState) → KeepsTokens s (update u s).1
unfolding update
update-keeps u s = record { tokens = ground arith; ids = ground arith; families = ground arith }

update_profile-keeps :
    (trim : Key → Key) (id name : Key) (s : AuthState)
    → KeepsTokens s (update_profile trim id name s).1
unfolding update_profile update rename
update_profile-keeps trim id name s = record {
  tokens = ground arith;
  ids = ground arith;
  families = ground arith;
}

save_with_account-keeps :
    (u : User) (provider provider_id : Key) (s : AuthState)
    → KeepsTokens s (save_with_account u provider provider_id s).1
unfolding save_with_account
save_with_account-keeps u provider provider_id s = record {
  tokens = ground arith;
  ids = ground arith;
  families = ground arith;
}

pub sign_up-IsValid :
    (env : AuthEnv) (email name password : Key) (role : Option Role) (s : AuthState)
    → HasOwners s
    → HasOwners (sign_up env email name password role s).1
sign_up-IsValid env email name password role s (o, v) =
    (o, keeps-IsValid o _ _ (sign_up-keeps env email name password role s) v)

pub update_profile-IsValid :
    (trim : Key → Key) (id name : Key) (s : AuthState)
    → HasOwners s
    → HasOwners (update_profile trim id name s).1
update_profile-IsValid trim id name s (o, v) =
    (o, keeps-IsValid o _ _ (update_profile-keeps trim id name s) v)

module _ (env : AuthEnv) (now : Time) where
  issue-HasOwners :
      (input : SessionUser) (s : AuthState) → HasOwners s → HasOwners (issue env now input none s).1
  issue-HasOwners input s (o, v) = (_, issue_new-IsValid env o now input s v)

  pub login-IsValid :
      (email password : Key) (s : AuthState)
      → HasOwners s
      → HasOwners (login env now email password s).1
  login-IsValid email password s h = elim (login_cases env now email password s) [
    | inl (u, hash, found, set, right, same) ↦ rw same (issue-HasOwners (session_user u) s h)
    | inr same ↦ rw same h
  ]

  issue_for-IsValid :
      (id : Key) (s : AuthState) → HasOwners s → HasOwners (issue_for env now id s).1
  issue_for-IsValid id s h = elim (Option-cases (find_by_id id s)) [
    | inl unknown ↦ rw unknown h
    | inr (u, found) ↦ rw found (issue-HasOwners (session_user u) s h)
  ]

  module _ (k : KakaoEnv) where
    kakao_login_cases :
        (code redirect : Key) (s : AuthState)
        → ((kakao_login env k now code redirect s).1 ≡ s)
          ⊎ ((id : Key) × ((kakao_login env k now code redirect s).1 ≡ (issue_for env now id s).1))
    unfolding kakao_login
    kakao_login_cases code redirect s = elim (Result-cases (k.exchange code redirect)) [
      | inr (e, failed) ↦ inl (rw failed refl)
      | inl (profile, e) ↦ elim (Bool-cases (get_or profile.email no_key == no_key)) [
        | inl bare ↦ inl (rw (e, bare) refl)
        | inr addressed ↦ elim (Option-cases (find_by_provider kakao profile.provider_id s)) [
          | inl unknown ↦ inl (ground arith)
          | inr (a, linked) ↦ inr (a.user_id, ground arith)
        ]
      ]
    ]

    pub kakao_login-IsValid :
        (code redirect : Key) (s : AuthState)
        → HasOwners s
        → HasOwners (kakao_login env k now code redirect s).1
    kakao_login-IsValid code redirect s h = elim (kakao_login_cases code redirect s) [
      | inl same ↦ rw same h
      | inr (id, same) ↦ rw same (issue_for-IsValid id s h)
    ]

    abbrev Completed : Key → Role → AuthState → Type 0
    Completed token role s =
        ((id : Key) × ((complete_kakao_signup env k now token role s).1
            ≡ (issue_for env now id s).1))
        ⊎ ((t : AuthState) × KeepsTokens s t
            × (((complete_kakao_signup env k now token role s).1 ≡ t)
                ⊎ ((u : User) × ((complete_kakao_signup env k now token role s).1
                      ≡ (issue env now (session_user u) none t).1))))

    keeps_refl : (s : AuthState) → KeepsTokens s s
    keeps_refl s = record { tokens = refl; ids = omega arith; families = refl }

    complete_new :
        (token : Key) (role : Role) (s : AuthState) (payload : OnboardingPayload)
        → is_allowed role ≡ true
        → k.verify token ≡ some payload
        → find_by_provider kakao payload.provider_id s ≡ none
        → Completed token role s
    unfolding complete_kakao_signup
    complete_new token role s payload self e free =
        elim (Result-cases (create_oauth payload.email payload.name role)) [
          | inr (c, bad) ↦ inr (s, keeps_refl s, inl (ground arith))
          | inl (draft, good) ↦
              let r = save_with_account draft kakao payload.provider_id s in
              let kept = save_with_account-keeps draft kakao payload.provider_id s in
              elim (Result-cases r.0) [
                | inr (c, taken) ↦ inr (r.1, kept, inl (ground arith))
                | inl (u, saved) ↦ inr (r.1, kept, inr (u, ground arith))
              ]
        ]

    complete_cases : (token : Key) (role : Role) (s : AuthState) → Completed token role s
    unfolding complete_kakao_signup
    complete_cases token role s = elim (Bool-cases (is_allowed role)) [
      | inr barred ↦ inr (s, keeps_refl s, inl (ground arith))
      | inl self ↦ elim (Option-cases (k.verify token)) [
        | inl bad ↦ inr (s, keeps_refl s, inl (ground arith))
        | inr (payload, e) ↦ elim (Option-cases (find_by_provider kakao payload.provider_id s)) [
          | inl free ↦ complete_new token role s payload self e free
          | inr (a, linked) ↦ inl (a.user_id, ground arith)
        ]
      ]
    ]

    pub complete_kakao_signup-IsValid :
        (token : Key) (role : Role) (s : AuthState)
        → HasOwners s
        → HasOwners (complete_kakao_signup env k now token role s).1
    complete_kakao_signup-IsValid token role s h = elim (complete_cases token role s) [
      | inl (id, same) ↦ rw same (issue_for-IsValid id s h)
      | inr (t, kept, inl same) ↦ rw same (h.0, keeps-IsValid h.0 s t kept h.1)
      | inr (t, kept, inr (u, same)) ↦
          rw same (issue-HasOwners (session_user u) t (h.0, keeps-IsValid h.0 s t kept h.1))
    ]

logout_cases :
    (env : AuthEnv) (now : Time) (token : Key) (s : AuthState)
    → ((logout env now token s).1 ≡ s)
      ⊎ ((family : Key) × ((logout env now token s).1 ≡ revoked family now s))
unfolding logout revoke_family
logout_cases env now token s = elim (Option-cases (find_by_hash (env.sha256 token) s)) [
  | inl unknown ↦ inl (ground arith)
  | inr (t, found) ↦ inr (t.family_id, ground arith)
]

pub logout-IsValid :
    (env : AuthEnv) (now : Time) (token : Key) (s : AuthState)
    → HasOwners s
    → HasOwners (logout env now token s).1
logout-IsValid env now token s (o, v) = elim (logout_cases env now token s) [
  | inl same ↦ rw same (o, v)
  | inr (family, same) ↦ rw same (o, revoked-IsValid o family now s v)
]

pub logout_all-IsValid :
    (now : Time) (user_id : Key) (s : AuthState)
    → HasOwners s
    → HasOwners (logout_all now user_id s).1
unfolding logout_all revoke_all_by_user
logout_all-IsValid now user_id s (o, v) = (o, revoke_rows-IsValid o (of_user user_id) now s v)

pub revoke_session-IsValid :
    (now : Time) (user_id family_id : Key) (s : AuthState)
    → HasOwners s
    → HasOwners (revoke_session now user_id family_id s).1
revoke_session-IsValid now user_id family_id s (o, v) =
    elim (Bool-cases (is_key (find_family_owner family_id s) user_id)) [
      | inl mine ↦
          let own : find_family_owner family_id s ≡ some user_id = ground arith in
          rw (revoke_session_own now user_id family_id s own)
            (o, revoked-IsValid o family_id now s v)
      | inr not_mine ↦ rw (revoke_session_other now user_id family_id s not_mine) (o, v)
    ]

pub change_password-IsValid :
    (env : AuthEnv) (now : Time) (user_id current new : Key) (s : AuthState)
    → HasOwners s
    → HasOwners (change_password_of env now user_id current new s).1
change_password-IsValid env now user_id current new s (o, v) =
    elim (change_password_cases env now user_id current new s) [
      | inl (u, found, same) ↦
          let t : AuthState = record s {
            tokens = update_many (of_user user_id) (set_revoked now) s.tokens;
          } in
          let k : KeepsTokens t (changed user_id now (env.hash_password new) u s) = record {
            tokens = refl;
            ids = omega arith;
            families = refl;
          } in
          rw same (o, keeps-IsValid o _ _ k (revoke_rows-IsValid o (of_user user_id) now s v))
      | inr (e, same) ↦ rw same (o, v)
    ]
