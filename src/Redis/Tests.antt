-- ===== src/Redis/Tests.antt =====
-- A script that counts, at a server that has lost it.
use estate_server.Base.{[], false, true, refl, ◌+◌, ◌∷◌, ◌≡◌, ℕ, lookup, find_first, delete_many}
use estate_server.Redis.Scripts.{Lua, Session, eval, evalsha, run_script, sha_for, value}

abbrev counting : Lua ℕ ℕ
counting = record { sha_of = λ t. t + 1000; exec = λ t n. (value (n + 1), n + 1) }

abbrev known : Session ℕ
known = record { shas = (5, 1005) ∷ []; server = record { scripts = 5 ∷ []; store = 3 } }

forgotten :
    run_script counting true false 5 known
    ≡ (value 4, record { shas = []; server = record { scripts = 5 ∷ []; store = 4 } })
unfolding run_script sha_for evalsha eval lookup find_first delete_many
forgotten = refl
