-- ===== src/RateLimit/Tests.antt =====
-- Three writes from one address, against a limit of two.
use estate_server.Base.{List, Time, [], false, none, refl, some, ◌-◌, ◌∷◌, ◌≡◌, ◌≤◌}
use estate_server.Base.Int.{pos}
use estate_server.RateLimit.Window.{
  ip, post, LimitKey, Counters, count_of, check_all, retry_after, LimitConfig, Request,
  can_activate, hit,
}
use estate_server.RateLimit.Window.Bound.{passes, window_limit}

abbrev cfg : LimitConfig
cfg = record { window_sec = none; user_max = none; ip_max = some (pos 2) }

abbrev request : Request
request = record { skip = false; override = none; method = post; ip = some 7; user_id = none }

abbrev key : LimitKey
key = record { scope = ip; id = 7; window_start = 2 }

abbrev requests : List (Time × Time × Request)
requests = (125000, 125001, request) ∷ (126000, 126001, request) ∷ (127000, 127001, request) ∷ []

window_limit_example : passes cfg key 2 requests [] ≤ 2 - count_of key []
window_limit_example = window_limit cfg key 2 requests []

abbrev full : Counters
full = (key, 2) ∷ []

refused : (can_activate cfg 125000 125001 request full).0 ≡ retry_after 55
unfolding can_activate check_all hit count_of
refused = refl
