-- ===== src/Redis/Scripts.antt =====
-- `RedisService.runScript`. The server is a parameter: what a script does to its data, the hashes,
-- and when it drops its cache of scripts.
use estate_server.Base.{
  Key, List, Option, [], delete_many, find_first, lookup, none, some, ◌==◌, ◌∷◌, Bool, true, false,
}

-- What a command answers; `no_script` is the error NOSCRIPT.
pub data Reply (A : Type 0) : Type 0 where
  value : A → Reply A
  no_script : Reply A
  failure : Key → Reply A

-- The SHA of a script's text, and what the text does with keys and arguments.
pub record Lua (S A : Type 0) : Type 0 where
  pub sha_of : Key → Key
  pub exec : Key → S → Reply A × S

-- `scripts` are the texts that the server has cached.
pub record Server (S : Type 0) : Type 0 where
  pub scripts : List Key
  pub store : S

-- `scriptShas` and the server.
pub record Session (S : Type 0) : Type 0 where
  pub shas : List (Key × Key)
  pub server : Server S

-- SCRIPT FLUSH, or a restart of the server.
abbrev pub flush : {S : Type 0} → Bool → Server S → Server S
flush true srv = record srv { scripts = [] }
flush false srv = srv

-- `this.scriptShas.delete(lua)` drops the entry.
abbrev pub is_entry : Key → Key × Key → Bool
is_entry text (k, sha) = k == text

module _ {S A : Type 0} (lua_of : Lua S A) where
  -- SCRIPT LOAD
  abbrev pub load : Key → Server S → Server S
  load text srv = record srv { scripts = text ∷ srv.scripts }

  abbrev pub has_sha : Key → Key → Bool
  has_sha sha text = lua_of.sha_of text == sha

  abbrev pub exec_on : Key → Server S → Reply A × Server S
  exec_on text srv = let (r, s') = lua_of.exec text srv.store in (r, record srv { store = s' })

  abbrev pub run_found : Option Key → Server S → Reply A × Server S
  run_found none srv = (no_script, srv)
  run_found (some text) srv = exec_on text srv

  -- EVALSHA
  unfoldable pub evalsha : Key → Server S → Reply A × Server S
  evalsha sha srv = run_found (find_first (has_sha sha) srv.scripts) srv

  -- EVAL, which caches the text as well.
  unfoldable pub eval : Key → Server S → Reply A × Server S
  eval text srv = exec_on text (load text srv)

  -- The hash of the text, after a LOAD where it was not known.
  unfoldable pub sha_for : Key → Session S → Key × Session S
  sha_for text s = elim (lookup text s.shas) [
    | some sha ↦ (sha, s)
    | none ↦ (
      lua_of.sha_of text,
      record { shas = (text, lua_of.sha_of text) ∷ s.shas; server = load text s.server },
    )
  ]

  abbrev pub or_eval : Key → List (Key × Key) → Reply A × Server S → Reply A × Session S
  or_eval text shas (value a, srv) = (value a, record { shas = shas; server = srv })
  or_eval text shas (failure e, srv) = (failure e, record { shas = shas; server = srv })
  or_eval text shas (no_script, srv) =
      let (r, srv') = eval text srv in
      (r, record { shas = delete_many (is_entry text) shas; server = srv' })

  -- `runScript`; `before` and `between` say whether the server drops its scripts before the call, and
  -- between the LOAD and the EVALSHA.
  unfoldable pub run_script : Bool → Bool → Key → Session S → Reply A × Session S
  unfolding evalsha eval sha_for
  run_script before between text s =
      let (sha, s') = sha_for text (record s { server = flush before s.server }) in
      or_eval text s'.shas (evalsha sha (flush between s'.server))
