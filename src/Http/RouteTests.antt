-- ===== src/Http/RouteTests.antt =====
-- A tenant at the routes of the owners, and a stranger at the board of a building.
use estate_server.Base.{
  Key, [], arith, false, find_first, if◌then◌else◌, none, refl, some, true, ◌==◌, ◌∷◌, ◌≡◌, ◌≢◌,
  ◌⊎◌,
}
use estate_server.Auth.State.{owner, tenant}
use estate_server.Auth.Session.{TokenPayload}
use estate_server.Events.{free}
use estate_server.Property.Entities.{Building}
use estate_server.Property.Store.{PropertyState, is_member}
use estate_server.Board.Store.{BoardState, Post}
use estate_server.Http.Bearer.{access}
use estate_server.Http.Server.{Gate, HttpRequest, ServerState, serve, status}
use estate_server.Http.PropertyApi
use estate_server.Http.PropertyApi.{PropertyCall, PropertySite, end_lease_handler}
use estate_server.Http.BoardApi
use estate_server.Http.BoardApi.{BoardCall, BoardSite, like_post_handler}
use estate_server.Http.Owners.{owners_only}
use estate_server.Http.Outsiders.{outsiders_refused}

abbrev building : Building
building = record { id = some 1; owner_id = 10; name = 100; address = 101; deleted_at = none }

abbrev tables : PropertyState
tables = record {
  buildings = building ∷ [];
  units = [];
  leases = [];
  invites = [];
  events = [];
  next_id = 4;
  next_uuid = 50;
  draws = 0;
}

abbrev the_post : Post
the_post = record {
  id = some 2;
  building_id = 1;
  author_id = 10;
  category = free;
  title = 200;
  content = 201;
  deleted_at = none;
}

abbrev board : BoardState
board = record {
  property = tables;
  posts = the_post ∷ [];
  comments = [];
  likes = [];
  events = [];
  counters = [];
  details = [];
  lists = [];
  next_id = 4;
  next_uuid = 50;
}

abbrev stranger : TokenPayload
stranger = record { sub = 30; email = 31; role = tenant; fam = 4 }

abbrev gate : Gate
gate = record {
  jwt = record {
    sign = λ now seconds c. 5030;
    verify = λ now token. if token == 5030 then some (access stranger) else none;
    expires_in = 900;
  };
  limits = record { window_sec = none; user_max = none; ip_max = none };
  message_of = λ e. 0;
}

abbrev property_site : PropertySite
property_site = record { trim = λ k. k; random_code = λ n. n; path_of = λ call. 0 }

abbrev board_site : BoardSite
board_site = record {
  trim = λ k. k;
  reachable = true;
  redis = record { detail_up = true; list_up = true; count_up = true };
  without_sub = λ now later call. none;
  path_of = λ call. 0;
}

abbrev end_request : HttpRequest PropertyCall
end_request = record { ip = some 3; bearer = some 5030; call = end_lease_handler 3 }

abbrev property_start : ServerState PropertyState
property_start = record { counters = []; tables = tables }

stranger_rents :
    (token : Key) (p : TokenPayload)
    → end_request.bearer ≡ some token
    → gate.jwt.verify 5 token ≡ some (access p)
    → p.role ≢ owner
stranger_rents token p carried good is_owner = ground arith

owners_only_example :
    let (response, s') =
      serve gate (PropertyApi.routes property_site) 5 6 end_request property_start in
    ((status response ≡ 401) ⊎ (status response ≡ 403) ⊎ (status response ≡ 429))
    × (s'.tables ≡ tables)
owners_only_example =
    owners_only gate property_site 5 6 end_request property_start refl stranger_rents

abbrev like_request : HttpRequest BoardCall
like_request = record { ip = some 3; bearer = some 5030; call = like_post_handler 2 }

abbrev board_start : ServerState BoardState
board_start = record { counters = []; tables = board }

is_stranger : (id : Key) → is_member 30 id board.property ≡ false
unfolding is_member find_first
is_stranger id = ground arith

outsiders_refused_example :
    let (response, s') = serve gate (BoardApi.routes board_site) 5 6 like_request board_start in
    ((status response ≡ 400)
      ⊎ (status response ≡ 403)
      ⊎ (status response ≡ 404)
      ⊎ (status response ≡ 429))
    × (s'.tables ≡ board)
outsiders_refused_example =
    outsiders_refused gate board_site 5 6 like_request 5030 stranger board_start refl refl refl
      is_stranger
