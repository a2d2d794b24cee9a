-- ===== src/Http/ChatApi.antt =====
-- src/chat/interface/chat.controller.ts with its DTOs.
use estate_server.Base.{
  Action, Key, List, Option, Time, [], gets, map, none, pure, some, true, ℕ, ◌>>=◌,
}
use estate_server.Base.Int.{ℤ}
use estate_server.Events.{ChatMessage}
use estate_server.RateLimit.Window.{Method, get, post}
use estate_server.Chat.Store.{ChatRoom, ChatState}
use estate_server.Chat.Cases.{RoomSummary, ensure_room, list_rooms, read_history}
use estate_server.Http.Bearer.{CurrentUser}
use estate_server.Http.Server.{Routes}

-- The handlers with their bodies and queries; a field of text is `none` where the body lacks it.
pub data ChatCall : Type 0 where
  create_room_handler : (building_id tenant_id : Option Key) → ChatCall
  my_rooms_handler : ChatCall
  messages_handler : (id : Key) (limit : Option ℤ) → ChatCall

-- What createRoom answers; the fields of a ChatRoom.
pub record RoomView : Type 0 where
  pub id : Option Key
  pub building_id : Key
  pub owner_id : Key
  pub tenant_id : Key

-- LastMessageDto
pub record LastMessage : Type 0 where
  pub content : Key
  pub created_at : Time

pub data Answer : Type 0 where
  of_room : RoomView → Answer
  of_rooms : List (RoomView × Option LastMessage) → Answer
  of_messages : List ChatMessage → Answer

abbrev pub room_view : ChatRoom → RoomView
room_view r = record {
  id = r.id;
  building_id = r.building_id;
  owner_id = r.owner_id;
  tenant_id = r.tenant_id;
}

abbrev pub last_view : Option ChatMessage → Option LastMessage
last_view none = none
last_view (some m) = some (record { content = m.content; created_at = m.created_at })

abbrev pub summary_view : RoomSummary → RoomView × Option LastMessage
summary_view r = (room_view r.room, last_view r.last_message)

-- The decorators @Get and @Post.
unfoldable pub method_of : ChatCall → Method
method_of (create_room_handler building_id tenant_id) = post
method_of my_rooms_handler = get
method_of (messages_handler id limit) = get

unfoldable pub success_of : ChatCall → ℕ
success_of (create_room_handler building_id tenant_id) = 201
success_of my_rooms_handler = 200
success_of (messages_handler id limit) = 200

-- `without_sub` is what the handlers do for claims without a `sub`, which is left open: a condition
-- on `undefined` is no condition to Prisma.
pub record ChatSite : Type 0 where
  pub without_sub : Time → Time → ChatCall → Option (Action ChatState Answer)
  pub path_of : ChatCall → Key

-- EnsureRoomDto: `@IsString()` on both fields.
abbrev pub create_as : Key → Option Key → Option Key → Option (Action ChatState Answer)
create_as user_id none tenant_id = none
create_as user_id (some building_id) none = none
create_as user_id (some building_id) (some tenant_id) =
    some (ensure_room user_id building_id tenant_id >>= λ room. pure (of_room (room_view room)))

-- The handlers behind the ValidationPipe, for a user with an id.
unfoldable pub run_as : Time → Key → ChatCall → Option (Action ChatState Answer)
unfolding ensure_room list_rooms read_history
run_as now user_id (create_room_handler building_id tenant_id) =
    create_as user_id building_id tenant_id
run_as now user_id my_rooms_handler =
    some (gets (λ s. of_rooms (map summary_view (list_rooms now user_id s))))
run_as now user_id (messages_handler id limit) =
    some (read_history now user_id id limit >>= λ ms. pure (of_messages ms))

module _ (site : ChatSite) where
  unfoldable pub run : Time → Time → CurrentUser → ChatCall → Option (Action ChatState Answer)
  unfolding run_as
  run now later user call = elim user.sub [
    | none ↦ site.without_sub now later call
    | some id ↦ run_as now id call
  ]

  -- The guard is on the class.
  abbrev pub routes : Routes ChatCall Answer ChatState
  routes = record {
    method_of = method_of;
    limit_of = λ call. none;
    is_guarded = λ call. true;
    roles_of = λ call. [];
    success_of = success_of;
    path_of = site.path_of;
    run = run;
  }
