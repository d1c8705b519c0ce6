-- ===== src/Notify/Defs.antt =====
-- The notification manager: internal/notify/manager.go. The channels, the store, the clock and the
-- random ids are parameters; the log is left out, and what a worker does with an event is one step.
use Prim.Native.String.{◌++◌ as join}
use qcc_plus.Prelude.{
  ℕ, suc, ◌+◌, ◌*◌, ℤ, pos, pos_part, neg_part, ltb_ℤ, leb_ℤ, inl, inr, ◌⊎◌, String, Bool, true,
  false, Option, none, some, List, [], ◌∷◌, ◌++◌, ◌==◌, ltb, leb, length, str_eq, second,
  if◌then◌else◌, lookup, insert,
}

pub record Event : Type 0 where
  pub account_id : String
  pub event_type : String
  pub title : String
  pub content : String
  pub dedup_key : String
  pub occurred_at : ℕ  -- 0 is the zero time

pub record ManagerConfig : Type 0 where
  pub queue_size : ℤ
  pub worker_count : ℤ
  pub dedup_window : ℤ
  pub send_timeout : ℤ

pub data ManagerOption : Type 0 where
  with_queue_size : ℤ → ManagerOption
  with_worker_count : ℤ → ManagerOption
  with_dedup_window : ℤ → ManagerOption
  with_send_timeout : ℤ → ManagerOption

abbrev pub if_positive : ℤ → ℤ → ℤ
if_positive old n = if ltb_ℤ (pos 0) n then n else old

-- An option changes its field if its value is positive.
unfoldable pub apply_option : ManagerOption → ManagerConfig → ManagerConfig
apply_option (with_queue_size n) c = record c { queue_size = if_positive c.queue_size n }
apply_option (with_worker_count n) c = record c { worker_count = if_positive c.worker_count n }
apply_option (with_dedup_window d) c = record c { dedup_window = if_positive c.dedup_window d }
apply_option (with_send_timeout d) c = record c { send_timeout = if_positive c.send_timeout d }

unfoldable pub apply_options : List ManagerOption → ManagerConfig → ManagerConfig
unfolding apply_option
apply_options [] c = c
apply_options (o ∷ os) c = apply_options os (apply_option o c)

abbrev pub default_config : ManagerConfig
default_config = record {
  queue_size = pos 128;
  worker_count = pos 2;
  dedup_window = pos (300 * second);
  send_timeout = pos (8 * second);
}

pub record HistoryRecord : Type 0 where
  pub id : String
  pub account_id : String
  pub channel_id : String
  pub event_type : String
  pub title : String
  pub content : String
  pub status : String
  pub error : String
  pub sent_at : Option ℕ
  pub created_at : ℕ

pub record Manager : Type 0 where
  pub cfg : ManagerConfig
  pub queue : List Event
  pub last_notify : List (String × ℕ)
  pub history : List HistoryRecord

-- At least one worker.
abbrev pub with_worker : ManagerConfig → ManagerConfig
with_worker c = if leb_ℤ c.worker_count (pos 0) then record c { worker_count = pos 1 } else c

unfoldable pub new_manager : List ManagerOption → Manager
unfolding apply_options
new_manager os = record {
  cfg = with_worker (apply_options os default_config);
  queue = [];
  last_notify = [];
  history = [];
}

abbrev pub dated : ℕ → Event → Event
dated now evt = if evt.occurred_at == 0 then record evt { occurred_at = now } else evt

-- An event is dropped when the queue is full.
unfoldable pub publish : ℕ → Event → Option Manager → Option Manager
publish now evt none = none
publish now evt (some m) =
    if ltb (length m.queue) (pos_part m.cfg.queue_size)
    then some (record m { queue = m.queue ++ (dated now evt ∷ []) })
    else some m

pub record Channel : Type 0 where
  pub id : String
  pub channel_type : String

pub record NotificationMessage : Type 0 where
  pub account_id : String
  pub event_type : String
  pub title : String
  pub content : String
  pub occurred_at : ℕ

-- What the worker calls: the enabled subscriptions of an event, the channels, the store, the clock
-- and the ids, these by the place of the subscription.
pub record Outside : Type 0 where
  pub subscriptions : String → String → String ⊎ List Channel
  pub build_channel : Channel → Option String
  pub send : ℕ → Channel → NotificationMessage → Option String
  pub insert_history : ℕ → Option String
  pub checked_at : ℕ → ℕ
  pub sent_at : ℕ → ℕ
  pub stored_at : ℕ → ℕ
  pub random_id : ℕ → String

abbrev event_key : Event → String
event_key evt =
    if str_eq evt.dedup_key "" then evt.event_type else join evt.event_type (join ":" evt.dedup_key)

unfoldable pub compose_dedup_key : Event → Channel → String
compose_dedup_key evt ch = join ch.id (join "|" (join evt.account_id (join "|" (event_key evt))))

-- Whether the last notification under a key is as old as the window.
abbrev pub is_due : ℤ → ℕ → Option ℕ → Bool
is_due window now none = true
is_due window now (some last) = leb (last + pos_part window) (now + neg_part window)

unfoldable pub should_send : String → ℕ → Manager → Manager × Bool
should_send key now m =
    if is_due m.cfg.dedup_window now (lookup key m.last_notify)
    then (record m { last_notify = insert key now m.last_notify }, true)
    else (m, false)

abbrev pub message_of : Event → NotificationMessage
message_of evt = record {
  account_id = evt.account_id;
  event_type = evt.event_type;
  title = evt.title;
  content = evt.content;
  occurred_at = evt.occurred_at;
}

abbrev pub history_of : Outside → ℕ → Event → Channel → Option String → HistoryRecord
history_of w i evt ch none = record {
  id = w.random_id i;
  account_id = evt.account_id;
  channel_id = ch.id;
  event_type = evt.event_type;
  title = evt.title;
  content = evt.content;
  status = "sent";
  error = "";
  sent_at = some (w.sent_at i);
  created_at = w.stored_at i;
}
history_of w i evt ch (some e) = record {
  id = w.random_id i;
  account_id = evt.account_id;
  channel_id = ch.id;
  event_type = evt.event_type;
  title = evt.title;
  content = evt.content;
  status = "failed";
  error = e;
  sent_at = none;
  created_at = w.stored_at i;
}

unfoldable pub store_history : Option String → HistoryRecord → Manager → Manager
store_history (some e) r m = m
store_history none r m = record m { history = m.history ++ (r ∷ []) }

-- The messages that are sent, with the channel's id, and the manager after them.
unfoldable pub send_on :
    Outside
    → ℕ
    → Event
    → Channel
    → Option String
    → Manager
    → Manager × List (String × NotificationMessage)
unfolding store_history
send_on w i evt ch (some e) m = (m, [])
send_on w i evt ch none m =
    let sent = w.send i ch (message_of evt) in
    (
      store_history (w.insert_history i) (history_of w i evt ch sent) m,
      (ch.id, message_of evt) ∷ [],
    )

unfoldable pub notify_one :
    Outside → ℕ → Event → Channel → Manager × Bool → Manager × List (String × NotificationMessage)
unfolding send_on
notify_one w i evt ch (m, false) = (m, [])
notify_one w i evt ch (m, true) = send_on w i evt ch (w.build_channel ch) m

unfoldable pub notify_subscribers :
    Outside → ℕ → Event → List Channel → Manager → Manager × List (String × NotificationMessage)
unfolding notify_one should_send compose_dedup_key
notify_subscribers w i evt [] m = (m, [])
notify_subscribers w i evt (ch ∷ chs) m =
    let one = notify_one w i evt ch (should_send (compose_dedup_key evt ch) (w.checked_at i) m) in
    let rest = notify_subscribers w (suc i) evt chs one.0 in (rest.0, one.1 ++ rest.1)

unfoldable pub notify_listed :
    Outside
    → Event
    → String ⊎ List Channel
    → Manager
    → Manager × List (String × NotificationMessage)
unfolding notify_subscribers
notify_listed w evt (inl e) m = (m, [])
notify_listed w evt (inr chs) m = notify_subscribers w 0 evt chs m

unfoldable pub handle_event :
    Outside → Event → Manager → Manager × List (String × NotificationMessage)
unfolding notify_listed
handle_event w evt m = notify_listed w evt (w.subscriptions evt.account_id evt.event_type) m

-- The next event of a worker; an empty queue waits.
unfoldable pub take_event :
    Outside → List Event → Manager → Manager × List (String × NotificationMessage)
unfolding handle_event
take_event w [] m = (m, [])
take_event w (evt ∷ rest) m = handle_event w evt (record m { queue = rest })

unfoldable pub worker : Outside → Manager → Manager × List (String × NotificationMessage)
unfolding take_event
worker w m = take_event w m.queue m
