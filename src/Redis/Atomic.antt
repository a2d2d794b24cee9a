-- ===== src/Redis/Atomic.antt =====
-- That `runScript` runs the script exactly once, whatever the server has cached.
use estate_server.Base.{
  All, Bool, Bool-cases, Key, List, Option-cases, [], ap, arith, find_first, find_first_sound,
  false, inl, inr, lookup, refl, some, true, ==_iff, ◌==◌, ◌∷◌, ◌≡◌, ◌≢◌, ◌⊎◌, All-delete_many, ◌∙◌,
  sym,
}
use estate_server.Redis.Scripts.{
  Lua, Reply, Server, Session, eval, evalsha, exec_on, failure, flush, has_sha, is_entry, no_script,
  or_eval, run_script, sha_for, value,
}

module _ {S A : Type 0} (lua_of : Lua S A)
    (injective : (t u : Key) → lua_of.sha_of t ≡ lua_of.sha_of u → t ≡ u)
    (quiet : (t : Key) (s : S) → (lua_of.exec t s).0 ≢ no_script) where
  -- The hashes that are kept are those of their texts.
  abbrev pub IsHonest : Session S → Type 0
  IsHonest s = All (λ (e : Key × Key). e.1 ≡ lua_of.sha_of e.0) s.shas

  lookup-sha :
      (text : Key) (shas : List (Key × Key)) {sha : Key}
      → All (λ (e : Key × Key). e.1 ≡ lua_of.sha_of e.0) shas
      → lookup text shas ≡ some sha
      → sha ≡ lua_of.sha_of text
  unfolding lookup
  lookup-sha text [] h e = cc
  lookup-sha text ((k, v) ∷ shas) {sha} (same, h) e = elim (Bool-cases (k == text)) [
    | inl here ↦
        let it = (==_iff k text).0 here in
        let found : v ≡ sha = ground (arith, here) in sym found ∙ same ∙ ap lua_of.sha_of it
    | inr later ↦ lookup-sha text shas h (rw later at e)
  ]

  -- The hash that is used is that of the text, and the data have not changed.
  sha_for-IsHonest :
      (text : Key) (s : Session S)
      → IsHonest s
      → ((sha_for lua_of text s).0 ≡ lua_of.sha_of text)
        × IsHonest (sha_for lua_of text s).1
        × ((sha_for lua_of text s).1.server.store ≡ s.server.store)
  unfolding sha_for
  sha_for-IsHonest text s h = elim (Option-cases (lookup text s.shas)) [
    | inr (sha, known) ↦ rw (sha_for, known) (lookup-sha text s.shas h known, h, refl)
    | inl unknown ↦ rw (sha_for, unknown) (refl, (refl, h), refl)
  ]

  -- By its hash the server finds the text, or nothing.
  evalsha-cases :
      (text : Key) (srv : Server S)
      → (evalsha lua_of (lua_of.sha_of text) srv ≡ (no_script, srv))
        ⊎ (evalsha lua_of (lua_of.sha_of text) srv ≡ exec_on lua_of text srv)
  unfolding evalsha
  evalsha-cases text srv =
      elim (Option-cases (find_first (has_sha lua_of (lua_of.sha_of text)) srv.scripts)) [
        | inl missing ↦ inl (rw (evalsha, missing) refl)
        | inr (t, found) ↦
            let hit = find_first_sound (has_sha lua_of (lua_of.sha_of text)) srv.scripts found in
            let same = injective t text ((==_iff (lua_of.sha_of t) (lua_of.sha_of text)).0 hit) in
            inr (rw (evalsha, found, same) refl)
      ]

  abbrev Runs : Key → S → Reply A × Session S → Type 0
  Runs text store (r, s) =
      (r ≡ (lua_of.exec text store).0) × (s.server.store ≡ (lua_of.exec text store).1) × IsHonest s

  or_eval-run :
      (text : Key) (shas : List (Key × Key)) (r : Reply A) (srv : Server S) (store : S)
      → All (λ (e : Key × Key). e.1 ≡ lua_of.sha_of e.0) shas
      → (r ≡ (lua_of.exec text store).0)
      → (srv.store ≡ (lua_of.exec text store).1)
      → Runs text store (or_eval lua_of text shas (r, srv))
  or_eval-run text shas (value a) srv store h e d = (e, d, h)
  or_eval-run text shas (failure f) srv store h e d = (e, d, h)
  or_eval-run text shas no_script srv store h e d = absurd (quiet text store (sym e))

  or_eval-again :
      (text : Key) (shas : List (Key × Key)) (srv : Server S) (store : S)
      → All (λ (e : Key × Key). e.1 ≡ lua_of.sha_of e.0) shas
      → srv.store ≡ store
      → Runs text store (or_eval lua_of text shas (no_script, srv))
  unfolding eval
  or_eval-again text shas srv store h e = (
    ap (λ d. (lua_of.exec text d).0) e,
    ap (λ d. (lua_of.exec text d).1) e,
    All-delete_many _ (is_entry text) shas h,
  )

  flush-store : (b : Bool) (srv : Server S) → (flush b srv).store ≡ srv.store
  flush-store true srv = refl
  flush-store false srv = refl

  -- If different scripts have different hashes, no script answers with the error NOSCRIPT itself, and
  -- the hashes that are kept are those of their texts, then `runScript` answers what the script
  -- answers, has done to the data what one run of it does, and keeps such hashes, whatever the
  -- server has cached, and whether or not it drops its cache before the call or between the LOAD
  -- and the EVALSHA.
  pub run_script_once :
      (before between : Bool) (text : Key) (s : Session S)
      → IsHonest s
      → let (r, s') = run_script lua_of before between text s in
        (r ≡ (lua_of.exec text s.server.store).0)
        × (s'.server.store ≡ (lua_of.exec text s.server.store).1)
        × IsHonest s'
  unfolding run_script
  run_script_once before between text s h =
      let s0 : Session S = record s { server = flush before s.server } in
      let (sha, honest, kept) = sha_for-IsHonest text s0 h in
      let s1 = (sha_for lua_of text s0).1 in
      let store : (flush between s1.server).store ≡ s.server.store =
        flush-store between s1.server ∙ kept ∙ flush-store before s.server in
      elim (evalsha-cases text (flush between s1.server)) [
        | inl missing ↦
            rw (sha, missing)
              (or_eval-again text s1.shas (flush between s1.server) s.server.store honest store)
        | inr found ↦
            rw (sha, found)
              (or_eval-run text s1.shas (exec_on lua_of text (flush between s1.server)).0
                (exec_on lua_of text (flush between s1.server)).1 s.server.store honest
                (ap (λ d. (lua_of.exec text d).0) store) (ap (λ d. (lua_of.exec text d).1) store))
      ]
