-- ===== src/Auth/State.antt =====
-- The entities and the tables of src/auth: domain/refresh-token.entity.ts and the models User,
-- Account and RefreshToken of prisma/schema.prisma.
use estate_server.Base.{ℕ, Key, Time, Option, none, Bool, List, ◌&&◌, ltb, is_none, is_some}

pub data Role : Type 0 where
  owner tenant admin : Role

-- RefreshTokenProps, all that the class RefreshToken holds.
pub record RefreshToken : Type 0 where
  pub id : Option Key
  pub user_id : Key
  pub token_hash : Key
  pub family_id : Key
  pub expires_at : Time
  pub used_at : Option Time
  pub revoked_at : Option Time

-- `RefreshToken.create`
unfoldable pub create : Key → Key → Key → Time → RefreshToken
create user_id token_hash family_id expires_at = record {
  id = none;
  user_id = user_id;
  token_hash = token_hash;
  family_id = family_id;
  expires_at = expires_at;
  used_at = none;
  revoked_at = none;
}

unfoldable pub is_usable : RefreshToken → Time → Bool
is_usable t now = is_none t.used_at && is_none t.revoked_at && ltb now t.expires_at

unfoldable pub is_used : RefreshToken → Bool
is_used t = is_some t.used_at

-- A row of the table RefreshToken.
pub record TokenRow : Type 0 where
  pub id : Key
  pub user_id : Key
  pub token_hash : Key
  pub family_id : Key
  pub expires_at : Time
  pub used_at : Option Time
  pub revoked_at : Option Time
  pub created_at : Time

-- A row of the table User.
pub record UserRow : Type 0 where
  pub id : Key
  pub email : Key
  pub name : Key
  pub password_hash : Option Key
  pub role : Role
  pub deleted_at : Option Time

-- A row of the table Account.
pub record AccountRow : Type 0 where
  pub id : Key
  pub user_id : Key
  pub provider : Key
  pub provider_id : Key

-- The tables, and the sources of fresh values: `next_id` is the next row's `cuid()`, `next_uuid`
-- the next `randomUUID()`, `draws` counts the refresh tokens that were generated.
pub record AuthState : Type 0 where
  pub users : List UserRow
  pub accounts : List AccountRow
  pub tokens : List TokenRow
  pub next_id : Key
  pub next_uuid : Key
  pub draws : ℕ
