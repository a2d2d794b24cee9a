-- ===== src/Http/InboxTests.antt =====
-- A user at the routes of the notifications and of the chat, and the holder of an onboarding token.
use estate_server.Base.{Key, [], find_many, if◌then◌else◌, none, refl, some, ◌==◌, ◌∷◌, ◌≡◌, ◌⊎◌}
use estate_server.Auth.State.{tenant}
use estate_server.Auth.Session.{TokenPayload}
use estate_server.Auth.Access.{OnboardingPayload}
use estate_server.Events.{post}
use estate_server.Board.Store.{BoardState}
use estate_server.Notification.Store.{
  Notification, NotificationState, of_owner, post_liked, new_like, like_on_yours,
}
use estate_server.Chat.Store.{ChatRoom, ChatState}
use estate_server.Http.ChatApi
use estate_server.Http.ChatApi.{ChatSite, messages_handler}
use estate_server.Http.Conversations.{IsRefused, IsShown, history_for_participants}
use estate_server.Http.Bearer.{access, onboarding}
use estate_server.Http.Server.{Gate, HttpRequest, ServerState, serve, status}
use estate_server.Http.NotificationApi.{
  NotificationCall, NotificationSite, list_mine_handler, routes,
}
use estate_server.Http.Inbox.{
  AllRead, OnlyOwn, SameFor, own_inbox_only, onboarding_reads_all, read_all_request,
}

abbrev board : BoardState
board = record {
  property = record {
    buildings = [];
    units = [];
    leases = [];
    invites = [];
    events = [];
    next_id = 4;
    next_uuid = 50;
    draws = 0;
  };
  posts = [];
  comments = [];
  likes = [];
  events = [];
  counters = [];
  details = [];
  lists = [];
  next_id = 4;
  next_uuid = 50;
}

abbrev notice_for : Key → Key → Notification
notice_for id user = record {
  id = id;
  recipient_id = user;
  content = record {
    type_ = post_liked;
    title = new_like;
    body = like_on_yours;
    entity_type = post;
    entity_id = 2;
    building_id = some 1;
  };
  event_id = 60;
  read_at = none;
  created_at = 5;
}

abbrev inbox : NotificationState
inbox = record {
  board = board;
  rooms = [];
  notifications = notice_for 1 30 ∷ notice_for 2 40 ∷ [];
  unread =
      record { user_id = 30; value = 1; expires_at = 9000 }
      ∷ record { user_id = 40; value = 1; expires_at = 9000 }
      ∷ [];
  pushed = [];
  next_id = 3;
}

abbrev renter : TokenPayload
renter = record { sub = 30; email = 31; role = tenant; fam = 4 }

abbrev guest : OnboardingPayload
guest = record { provider_id = 77; email = 78; name = 79 }

abbrev gate : Gate
gate = record {
  jwt = record {
    sign = λ now seconds c. 5030;
    verify = λ now token.
        if token == 5030
        then some (access renter)
        else if token == 6030
        then some (onboarding guest)
        else none;
    expires_in = 900;
  };
  limits = record { window_sec = none; user_max = none; ip_max = none };
  message_of = λ e. 0;
}

abbrev site : NotificationSite
site = record { undefined_text = 999; path_of = λ call. 0 }

abbrev start : ServerState NotificationState
start = record { counters = []; tables = inbox }

abbrev list_request : HttpRequest NotificationCall
list_request = record { ip = some 3; bearer = some 5030; call = list_mine_handler none }

own_inbox_only_example :
    let (response, s') = serve gate (routes site) 5 6 list_request start in
    ((status response ≡ 200) ⊎ (status response ≡ 429))
    × OnlyOwn 30 inbox.notifications response
    × SameFor 40 inbox s'.tables
own_inbox_only_example =
    own_inbox_only gate site 5 6 list_request 5030 renter 40 start refl refl refl

onboarding_reads_all_example :
    let (response, s') = serve gate (routes site) 5 6 (read_all_request (some 3) 6030) start in
    ((status response ≡ 429) × (s'.tables ≡ inbox))
    ⊎ ((status response ≡ 200)
        × AllRead s'.tables
        × (find_many (of_owner 40) s'.tables.unread ≡ find_many (of_owner 40) inbox.unread))
onboarding_reads_all_example =
    onboarding_reads_all gate site 5 6 (some 3) 6030 guest refl 40 start refl

abbrev room : ChatRoom
room = record { id = some 5; building_id = 1; owner_id = 10; tenant_id = 30 }

abbrev chat : ChatState
chat = record {
  property = board.property;
  rooms = room ∷ [];
  messages =
      record { room_id = 5; message_id = 60; sender_id = 10; content = 7; created_at = 4 } ∷ [];
  recents = [];
  relayed = [];
  published = [];
  next_id = 6;
  next_uuid = 61;
}

abbrev chat_site : ChatSite
chat_site = record { without_sub = λ now later call. none; path_of = λ call. 0 }

abbrev chat_start : ServerState ChatState
chat_start = record { counters = []; tables = chat }

history_for_participants_example :
    let (response, s') =
      serve gate
        (ChatApi.routes chat_site)
        5
        6
        (record { ip = some 3; bearer = some 5030; call = messages_handler 5 none })
        chat_start in
    (IsRefused 30 5 chat response ⊎ IsShown 5 30 5 none chat response) × (s'.tables ≡ chat)
history_for_participants_example =
    history_for_participants gate chat_site 5 6 (some 3) 5030 renter refl 5 none chat_start
