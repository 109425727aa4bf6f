-- ===== src/Handler/Tests.antt =====
-- A handler on a pion that accepts everything, and its first requests.
use flutter_pion_bridge.Prelude.{
  ltb, ◌^◌, Option, ◌*◌, ◌≢◌, List, ℕ, pos, ◌≡◌, refl, String, ◌==◌, true, false, none, some, [],
  ◌∷◌, empty, elem, IsDistinct, get, put, ◌⊎◌, suc, if◌then◌else◌, ◌+◌, leb, length, arith,
}
use flutter_pion_bridge.Registry.{register, new_registry}
use flutter_pion_bridge.Registry.Reachable.{IsFresh, registers, start, next}
use flutter_pion_bridge.Handler.Serving.{IsServed}
use flutter_pion_bridge.Handler.Consistency.{handle_message-IsServed}
use flutter_pion_bridge.Handler.Detached.{
  Outcome, short_buffer, failed_read, message, Received, limit_of, read_detached,
}
use flutter_pion_bridge.Handler.Reading.{doubled, IsStream, read_detached_forwards}
use flutter_pion_bridge.Types.{str, field, end, bin, Message}
use flutter_pion_bridge.Result.{ok}
use flutter_pion_bridge.DcSend.{default_dc_config}
use flutter_pion_bridge.Registry.{Registry, data_channel, peer_connection}
use flutter_pion_bridge.Pion.{Pion}
use flutter_pion_bridge.Handler.{
  ApiProfile, World, Env, Draw, new_handler, profile_for, keep_built, add_profile, build_profile,
  settings, media_option, with_settings, set_track_handler, set_peer_connection_closed_handler,
  notify_pc_closed,
}
use flutter_pion_bridge.Registry.{touch}
use flutter_pion_bridge.Handler.Events.{state_event, on_connection_state_change}
use flutter_pion_bridge.Handler.Dispatch.{handle, route, handle_message, process_frame}
use flutter_pion_bridge.Handler.Channels.{handle_pc_create_dc, open_channel, adopt_channel}
use flutter_pion_bridge.Handler.{lookup_pc, start_dc_send_goroutine, start_with}
use flutter_pion_bridge.Registry.{lookup}
use flutter_pion_bridge.Types.{at}
use flutter_pion_bridge.Registry.{Collected, second}
use flutter_pion_bridge.Registry.Cleanup.{cleanup}
use flutter_pion_bridge.Registry.Reachable.{Reach-IsConsistent}
use flutter_pion_bridge.Handler.Events.{send_event}
use flutter_pion_bridge.Handler.Activity.{event_keeps}
use flutter_pion_bridge.Handler.Frames.{IsAnswered}
use flutter_pion_bridge.Types.{blank, event}
use flutter_pion_bridge.Handler.Pool.{Arrival, serve, serve_new}
use flutter_pion_bridge.Handler.Pool.Blank.{serve-serve_new}
use flutter_pion_bridge.Handler.Life.{Life, begins, lives, embedder_hooks, state_changes}
use flutter_pion_bridge.Handler.Life.Served.{no_frame_is_lost}
use flutter_pion_bridge.Registry.Cascade.{IsConsistent}
use flutter_pion_bridge.Handler.Replies.{Replied}
use flutter_pion_bridge.Handler.Answers.{Handed, handle_message-Replied}
use flutter_pion_bridge.Handler.Profiles.{profile_for-again}
use flutter_pion_bridge.Handler.Life.Noticed.{hook_called_once}

-- Its state is the number of objects made.
abbrev easy : Pion ℕ ℕ
easy = record {
  new_api = λ se m. 1;
  new_peer_connection = λ api config n. (ok n, suc n);
  create_offer = λ pc n. (ok "offer", n);
  create_answer = λ pc n. (ok "answer", n);
  set_local_description = λ pc desc n. (none, n);
  set_remote_description = λ pc desc n. (some "wrong state", n);
  signaling_state = λ pc n. "stable";
  add_ice_candidate = λ pc init n. (none, n);
  create_data_channel = λ pc label init n. (ok n, suc n);
  label = λ dc n. "chat";
  ordered = λ dc n. true;
  set_buffered_amount_low_threshold = λ dc threshold n. n;
  close = λ res n. (none, n);
  new_rtp_codec_type = λ s. if s == "video" then 2 else 0;
  new_rtp_transceiver_direction = λ s. if s == "sendrecv" then 1 else 0;
  add_transceiver_from_kind = λ pc kind direction n. (none, n);
  transceivers = λ pc n. 1;
}

abbrev env : Env ℕ ℕ
env = record {
  pion = easy;
  floats = record {
    f32_int64 = λ x. pos 0;
    f64_int64 = λ x. pos 0;
    f32_uint64 = λ x. 0;
    f64_uint64 = λ x. 0;
    f32_uint16 = λ x. 0;
    f64_uint16 = λ x. 0;
  };
  engine = record { port_range_error = λ se lo hi. none; renomination_error = λ se ms. none };
  media_pion = record { register_codec = λ m c. none; register_interceptors = λ m period. none };
  marshal = λ se me. ok "{}";
  sprint = λ v. "video";
  profile_error_text = λ e. "bad";
  session = 4;
  make_panics = λ depth. if ltb depth (2 ^ 56) then none else some "makechan: size out of range";
}

abbrev one_channel : Registry
one_channel = record {
  resources = ("pc", peer_connection 0) ∷ ("dc", data_channel 1) ∷ [];
  parent = ("dc", "pc") ∷ [];
  children = ("pc", "dc" ∷ []) ∷ [];
  dc_send_states = ("dc", 0) ∷ [];
  last_seen = ("pc", 0) ∷ ("dc", 0) ∷ [];
}

abbrev world : World ℕ ℕ
world = record {
  handler = new_handler 0 default_dc_config;
  registry = one_channel;
  trace = record { enabled = false; dc_index = empty; next_idx = 0; free_idx = [] };
  pion = 2;
  send_states = [];
  work = [];
  closed_states = [];
  closed_hook = true;
  track_hook = false;
  hooked_tracks = [];
  drained_tracks = [];
  closed_once = [];
  notified = [];
  panicked = none;
}

abbrev draw : Draw
draw = record { now = 5; uuid = "fresh" }

abbrev send : Message
send = record {
  type = "dc:send";
  id = pos 12;
  handle = "dc";
  fields = field "data" (bin (1 ∷ 2 ∷ [])) end;
}

handle_message-Replied_example :
    Replied env "dc:send" send world (handle_message env draw send world)
    ⊎ Handed env "dc:send" send world (handle_message env draw send world)
handle_message-Replied_example = handle_message-Replied env draw send world

abbrev plain : ApiProfile ℕ
plain = record { api = 1; detach = false; max_message_size = pos 0 }

profile_for-again_example :
    let h = (profile_for env none none world.handler).1 in
    (profile_for env (some end) none h ≡ (ok plain, h))
    × ((k : String) (q : ApiProfile ℕ)
        → get world.handler.profiles k ≡ some q
        → get h.profiles k ≡ some q)
profile_for-again_example =
    profile_for-again env none none (some end) none world.handler "{}" plain refl refl built
  where
    built : (profile_for env none none world.handler).0 ≡ ok plain
    built =
        unfold profile_for keep_built add_profile build_profile settings media_option with_settings
          new_handler get put in
        refl

-- A stream with the messages that have arrived as its state.
unfoldable stream_read : ℕ → List Received → Outcome × List Received
stream_read len [] = (failed_read, [])
stream_read len (m ∷ ms) =
    if leb (length m.0) len then (message m.0 m.1, ms) else (short_buffer, m ∷ ms)

stream_read-IsStream : IsStream stream_read (λ s. s)
unfolding stream_read
stream_read-IsStream = record {
  fits = λ len s m ms e h. rw e (ground arith);
  stays = λ len s m ms e h. rw e (ground arith);
  ends = λ len s e. rw e refl;
}

abbrev arrivals : List Received
arrivals = ((1 ∷ 2 ∷ 3 ∷ []), false) ∷ ((104 ∷ []), true) ∷ []

read_detached_forwards_example :
    read_detached stream_read (length arrivals + (14 + 1)) (pos 3) arrivals ≡ some arrivals
read_detached_forwards_example =
    read_detached_forwards stream_read (λ s. s) (pos 3) 14 arrivals stream_read-IsStream
      (unfold limit_of doubled in omega arith) (unfold limit_of in (omega arith, (omega arith, tt)))

-- A registry with one PeerConnection, and a request for its first DataChannel.
abbrev one_connection : Registry
one_connection = register 0 "pc" (peer_connection 0) new_registry

abbrev young : World ℕ ℕ
young = record world { registry = one_connection }

abbrev open_chat : Message
open_chat = record {
  type = "pc:createDc";
  id = pos 3;
  handle = "pc";
  fields = field "label" (str "chat") end;
}

young-IsFresh : IsFresh young.registry draw.uuid
unfolding get put register
young-IsFresh = record { unregistered = refl; unparented = refl; childless = refl }

young-IsServed : IsServed young.registry
young-IsServed = record {
  reach = next start (
      registers 0 "pc" (peer_connection 0)
        (unfold get in record { unregistered = refl; unparented = refl; childless = refl }));
  typed = λ k p e. unfold register get in absurd (ground arith);
}

-- The PeerConnection of an earlier request, with the world as it was then.
abbrev newborn : World ℕ ℕ
newborn = record world { registry = new_registry; pion = 0 }

abbrev hello : Message
hello = record { type = "pc:create"; id = pos 2; handle = ""; fields = end }

newborn-IsFresh : IsFresh newborn.registry draw.uuid
unfolding get
newborn-IsFresh = record { unregistered = refl; unparented = refl; childless = refl }

no_frame_is_lost_example :
    IsConsistent newborn.registry
    × IsServed newborn.registry
    × ((out : List Message × World ℕ ℕ) × (process_frame env draw (ok hello) newborn ≡ some out)
        × IsAnswered env (pos 2) newborn out
        × Life out.1)
no_frame_is_lost_example =
    no_frame_is_lost env draw (ok hello) (begins newborn refl refl refl) newborn-IsFresh

-- A depth that `make` refuses: the channel is registered, and the panic is answered with an id of 0.
abbrev greedy : World ℕ ℕ
greedy = record young {
  handler = record young.handler {
    dc_config = record young.handler.dc_config { send_queue_depth = 2 ^ 62 };
  };
}

greedy-panics :
    (handle_message env draw open_chat greedy).1.panicked ≡ some "makechan: size out of range"
unfolding handle_message handle route handle_pc_create_dc lookup_pc open_channel adopt_channel
    start_dc_send_goroutine start_with lookup get put register at
greedy-panics = refl

-- With a hook, and "pc" reported.
abbrev hooked : World ℕ ℕ
hooked = set_peer_connection_closed_handler env true (set_track_handler env true newborn)

closing-hooked :
    on_connection_state_change env 0 "pc" "closed" true hooked
    ≡ some (state_event "pc" "closed" ∷ [], notify_pc_closed env "pc" hooked)
unfolding on_connection_state_change send_event touch get state_event event
    set_peer_connection_closed_handler set_track_handler
closing-hooked = refl

closing-reported :
    on_connection_state_change env 0 "pc" "closed" true (notify_pc_closed env "pc" hooked)
    ≡ some (
      state_event "pc" "closed" ∷ [],
      notify_pc_closed env "pc" (notify_pc_closed env "pc" hooked),
    )
unfolding on_connection_state_change send_event touch get notify_pc_closed elem state_event event
    set_peer_connection_closed_handler set_track_handler
closing-reported = refl

hook_called_once_example :
    IsDistinct (notify_pc_closed env "pc" (notify_pc_closed env "pc" hooked)).notified
    × (((elem "pc" (notify_pc_closed env "pc" hooked).closed_once ≡ false)
          × (elem "pc" (notify_pc_closed env "pc" hooked).notified ≡ false))
        ⊎ ((elem "pc" (notify_pc_closed env "pc" (notify_pc_closed env "pc" hooked)).closed_once
              ≡ true)
            × (elem "pc" (notify_pc_closed env "pc" (notify_pc_closed env "pc" hooked)).notified
                ≡ elem "pc" (notify_pc_closed env "pc" hooked).notified)))
hook_called_once_example =
    hook_called_once "pc"
      (lives (lives (begins newborn refl refl refl) (embedder_hooks env true true))
        (state_changes env 0 "pc" "closed" true _ closing-hooked))
      (state_changes env 0 "pc" "closed" true _ closing-reported)

handle_message-IsServed_example : IsServed (handle_message env draw open_chat young).1.registry
handle_message-IsServed_example =
    handle_message-IsServed env draw open_chat young young-IsFresh young-IsServed

-- One event a minute after the start, and a sweep after five.
abbrev minute : ℕ
minute = 60 * second

abbrev news : Message
news = record { type = "event:track"; id = pos 0; handle = "pc"; fields = end }

event_keeps_example :
    (w' : World ℕ ℕ) × (send_event env minute news young ≡ some (news ∷ [], w'))
    × ((c : Collected) × (cleanup
            (λ pc. false)
            (5 * minute)
            (5 * minute)
            (5 * minute)
            young.trace
            w'.registry
          ≡ some c)
        × (get c.registry.resources "pc" ≡ get young.registry.resources "pc"))
event_keeps_example =
    event_keeps env (λ pc. false) minute (5 * minute) (5 * minute) (5 * minute) young.trace news
      young (Reach-IsConsistent young-IsServed.reach) refl stamped (omega arith)
  where
    stamped : get young.registry.last_seen "pc" ≢ none
    stamped e = unfold register get put in ground arith

-- A candidate for a handle that was never given out.
abbrev lost : Message
lost = record {
  type = "pc:addIce";
  id = pos 8;
  handle = "gone";
  fields = field "candidate" (str "candidate:1") end;
}

-- A decoder that keeps what it finds in the message, and refuses an empty frame half-way.
abbrev merging : List ℕ → Message → Option String × Message
merging [] m = (some "EOF", record m { type = "pc:offer" })
merging (b ∷ bs) m = (none, record m { handle = "pc"; fields = field "secret" (bin bs) m.fields })

abbrev frames : List Arrival
frames =
    record { choice = 0; draw = draw; bytes = 1 ∷ 2 ∷ [] }
    ∷ record { choice = 0; draw = draw; bytes = [] }
    ∷ record { choice = 0; draw = draw; bytes = 3 ∷ [] }
    ∷ []

serve-serve_new_example :
    serve env merging (λ d m w. none) frames (blank ∷ []) young
    ≡ serve_new env merging (λ d m w. none) frames young
serve-serve_new_example =
    serve-serve_new env merging (λ d m w. none) frames (blank ∷ []) young (refl, tt)
