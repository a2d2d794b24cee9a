-- ===== src/Auth/User.antt =====
-- src/auth/domain/user.entity.ts and account.entity.ts.
use estate_server.Base.{
  Key, no_key, Option, none, some, ◌||◌, ◌==◌, if◌then◌else◌, get_or, Result, ok, err, domain_error,
}
use estate_server.Auth.State.{Role, tenant}

-- UserProps, all that the class User holds.
pub record User : Type 0 where
  pub id : Option Key
  pub email : Key
  pub name : Key
  pub password_hash : Option Key
  pub role : Role

-- `User.create`, with `assertRequired`.
unfoldable pub create : Key → Key → Key → Option Role → Result User
create email name password_hash role =
    if email == no_key || name == no_key
    then err domain_error
    else ok (record {
      id = none;
      email = email;
      name = name;
      password_hash = some password_hash;
      role = get_or role tenant;
    })

-- `User.createOAuth`, with `assertRequired`.
unfoldable pub create_oauth : Key → Key → Role → Result User
create_oauth email name role =
    if email == no_key || name == no_key
    then err domain_error
    else ok (record { id = none; email = email; name = name; password_hash = none; role = role })

-- `trim` is `String.prototype.trim` on the names.
unfoldable pub rename : (Key → Key) → Key → User → Result User
rename trim name u =
    if trim name == no_key then err domain_error else ok (record u { name = trim name })

unfoldable pub change_password : Key → User → User
change_password new_hash u = record u { password_hash = some new_hash }
