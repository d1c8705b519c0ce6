-- ===== src/Notify/Delivery.antt =====
-- What the queue holds and what the history records: internal/notify/manager.go.
use qcc_plus.Prelude.{
  ℕ, suc, ◌≤◌, ◌≡◌, refl, sym, ◌∙◌, ap, ℤ, pos, pos_part, subst, lookup, insert, ltb_ℤ, leb_ℤ, inl,
  inr, ◌⊎◌, String, Bool, true, false, Option, none, some, List, [], ◌∷◌, ◌++◌, arith, ltb, length,
  length-append, if◌then◌else◌,
}
use qcc_plus.Notify.Defs.{
  Event, Manager, ManagerConfig, ManagerOption, with_queue_size, with_worker_count,
  with_dedup_window, with_send_timeout, if_positive, apply_option, apply_options, default_config,
  with_worker, new_manager, dated, publish, Channel, Outside, compose_dedup_key, should_send,
  is_due, HistoryRecord, message_of, history_of, store_history, send_on, notify_one,
  notify_subscribers, notify_listed, take_event, handle_event, worker,
}

-- All numbers of a configuration are positive.
pub record IsPositive (c : ManagerConfig) : Type 0 where
  pub queue_size : ltb_ℤ (pos 0) c.queue_size ≡ true
  pub worker_count : ltb_ℤ (pos 0) c.worker_count ≡ true
  pub dedup_window : ltb_ℤ (pos 0) c.dedup_window ≡ true
  pub send_timeout : ltb_ℤ (pos 0) c.send_timeout ≡ true

if_positive_lem : (old n : ℤ) → ltb_ℤ (pos 0) old ≡ true → ltb_ℤ (pos 0) (if_positive old n) ≡ true
if_positive_lem old n h = ground (arith, h)

apply_option-IsPositive :
    (o : ManagerOption) (c : ManagerConfig) → IsPositive c → IsPositive (apply_option o c)
unfolding apply_option
apply_option-IsPositive (with_queue_size n) c h = record {
  queue_size = if_positive_lem c.queue_size n h.queue_size;
  worker_count = h.worker_count;
  dedup_window = h.dedup_window;
  send_timeout = h.send_timeout;
}
apply_option-IsPositive (with_worker_count n) c h = record {
  queue_size = h.queue_size;
  worker_count = if_positive_lem c.worker_count n h.worker_count;
  dedup_window = h.dedup_window;
  send_timeout = h.send_timeout;
}
apply_option-IsPositive (with_dedup_window d) c h = record {
  queue_size = h.queue_size;
  worker_count = h.worker_count;
  dedup_window = if_positive_lem c.dedup_window d h.dedup_window;
  send_timeout = h.send_timeout;
}
apply_option-IsPositive (with_send_timeout d) c h = record {
  queue_size = h.queue_size;
  worker_count = h.worker_count;
  dedup_window = h.dedup_window;
  send_timeout = if_positive_lem c.send_timeout d h.send_timeout;
}

apply_options-IsPositive :
    (os : List ManagerOption) (c : ManagerConfig) → IsPositive c → IsPositive (apply_options os c)
unfolding apply_options
apply_options-IsPositive [] c h = h
apply_options-IsPositive (o ∷ os) c h =
    apply_options-IsPositive os (apply_option o c) (apply_option-IsPositive o c h)

-- No more messages of the queue than its size.
pub record IsBounded (m : Manager) : Type 0 where
  pub config : IsPositive m.cfg
  pub bounded : length m.queue ≤ pos_part m.cfg.queue_size

with_worker-IsPositive : (c : ManagerConfig) → IsPositive c → IsPositive (with_worker c)
with_worker-IsPositive c h = by_count (leb_ℤ c.worker_count (pos 0))
  where
    by_count : (b : Bool) → IsPositive (if b then record c { worker_count = pos 1 } else c)
    by_count true = record {
      queue_size = h.queue_size;
      worker_count = refl;
      dedup_window = h.dedup_window;
      send_timeout = h.send_timeout;
    }
    by_count false = h

default_config-IsPositive : IsPositive default_config
default_config-IsPositive = record {
  queue_size = refl;
  worker_count = refl;
  dedup_window = refl;
  send_timeout = refl;
}

new_manager-IsBounded : (os : List ManagerOption) → IsBounded (new_manager os)
unfolding new_manager
new_manager-IsBounded os = record {
  config =
      with_worker-IsPositive (apply_options os default_config)
        (apply_options-IsPositive os default_config default_config-IsPositive);
  bounded = omega arith;
}

publish-IsBounded :
    (now : ℕ) (evt : Event) (m m' : Manager)
    → IsBounded m
    → publish now evt (some m) ≡ some m'
    → IsBounded m'
unfolding publish
publish-IsBounded now evt m m' h = by_room (ltb (length m.queue) (pos_part m.cfg.queue_size)) refl
  where
    by_room :
        (b : Bool)
        → ltb (length m.queue) (pos_part m.cfg.queue_size) ≡ b
        → (if b then some (record m { queue = m.queue ++ (dated now evt ∷ []) }) else some m)
          ≡ some m'
        → IsBounded m'
    by_room true room e =
        let more = length-append m.queue (dated now evt ∷ []) in
        let queued : Manager = record m { queue = m.queue ++ (dated now evt ∷ []) } in
        let same : queued ≡ m' = cc e in
        subst IsBounded same (record { config = h.config; bounded = ground (arith, room, more) })
    by_room false full e = let same : m ≡ m' = cc e in subst IsBounded same h

-- What a worker leaves alone: the configuration and the queue behind its event.
pub record KeepsQueue (m m' : Manager) : Type 0 where
  pub cfgs : m'.cfg ≡ m.cfg
  pub queues : m'.queue ≡ m.queue

KeepsQueue-trans : (m m' m'' : Manager) → KeepsQueue m m' → KeepsQueue m' m'' → KeepsQueue m m''
KeepsQueue-trans m m' m'' h k = record { cfgs = k.cfgs ∙ h.cfgs; queues = k.queues ∙ h.queues }

send_on-KeepsQueue :
    (w : Outside) (i : ℕ) (evt : Event) (ch : Channel) (o : Option String) (m : Manager)
    → KeepsQueue m (send_on w i evt ch o m).0
unfolding send_on
send_on-KeepsQueue w i evt ch (some e) m = record { cfgs = refl; queues = refl }
send_on-KeepsQueue w i evt ch none m =
    stored (w.insert_history i) (history_of w i evt ch (w.send i ch (message_of evt)))
  where
    stored : (o : Option String) (r : HistoryRecord) → KeepsQueue m (store_history o r m)
    stored (some e) r = record { cfgs = refl; queues = refl }
    stored none r = record { cfgs = refl; queues = refl }

notify_one-KeepsQueue :
    (w : Outside) (i now : ℕ) (evt : Event) (ch : Channel) (key : String) (m : Manager)
    → KeepsQueue m (notify_one w i evt ch (should_send key now m)).0
unfolding notify_one should_send
notify_one-KeepsQueue w i now evt ch key m =
    by_due (is_due m.cfg.dedup_window now (lookup key m.last_notify))
  where
    noted : Manager
    noted = record m { last_notify = insert key now m.last_notify }

    by_due :
        (b : Bool)
        → KeepsQueue m (notify_one w i evt ch (if b then (noted, true) else (m, false))).0
    by_due true =
        let sent = send_on-KeepsQueue w i evt ch (w.build_channel ch) noted in
        record { cfgs = sent.cfgs; queues = sent.queues }
    by_due false = record { cfgs = refl; queues = refl }

notify_subscribers-KeepsQueue :
    (w : Outside) (i : ℕ) (evt : Event) (chs : List Channel) (m : Manager)
    → KeepsQueue m (notify_subscribers w i evt chs m).0
unfolding notify_subscribers
notify_subscribers-KeepsQueue w i evt [] m = record { cfgs = refl; queues = refl }
notify_subscribers-KeepsQueue w i evt (ch ∷ chs) m =
    let m' =
      (notify_one w i evt ch (should_send (compose_dedup_key evt ch) (w.checked_at i) m)).0 in
    KeepsQueue-trans m m' (notify_subscribers w (suc i) evt chs m').0
      (notify_one-KeepsQueue w i (w.checked_at i) evt ch (compose_dedup_key evt ch) m)
      (notify_subscribers-KeepsQueue w (suc i) evt chs m')

notify_listed-KeepsQueue :
    (w : Outside) (evt : Event) (o : String ⊎ List Channel) (m : Manager)
    → KeepsQueue m (notify_listed w evt o m).0
unfolding notify_listed
notify_listed-KeepsQueue w evt (inl e) m = record { cfgs = refl; queues = refl }
notify_listed-KeepsQueue w evt (inr chs) m = notify_subscribers-KeepsQueue w 0 evt chs m

take_event-IsBounded :
    (w : Outside) (q : List Event) (m : Manager)
    → IsBounded m
    → m.queue ≡ q
    → IsBounded (take_event w q m).0
unfolding take_event handle_event
take_event-IsBounded w [] m h was = h
take_event-IsBounded w (evt ∷ rest) m h was =
    let m' : Manager = record m { queue = rest } in
    let left = (handle_event w evt m').0 in
    let kept = notify_listed-KeepsQueue w evt (w.subscriptions evt.account_id evt.event_type) m' in
    let fits : suc (length rest) ≤ pos_part m.cfg.queue_size =
      subst (λ (q : List Event). length q ≤ pos_part m.cfg.queue_size) was h.bounded in
    let size : length left.queue ≡ length rest = ap length kept.queues in
    let limit : pos_part left.cfg.queue_size ≡ pos_part m.cfg.queue_size =
      ap (λ (c : ManagerConfig). pos_part c.queue_size) kept.cfgs in
    record {
      config = subst IsPositive (sym kept.cfgs) h.config;
      bounded = omega (arith, fits, size, limit);
    }

worker-IsBounded : (w : Outside) (m : Manager) → IsBounded m → IsBounded (worker w m).0
unfolding worker
worker-IsBounded w m h = take_event-IsBounded w m.queue m h refl

-- The managers that publishing and working lead to, in any order.
pub data Running : Manager → Type 0 where
  starts : (os : List ManagerOption) → Running (new_manager os)
  publishes :
      (now : ℕ) (evt : Event) (m m' : Manager)
      → Running m
      → publish now evt (some m) ≡ some m'
      → Running m'
  works : (w : Outside) (m : Manager) → Running m → Running (worker w m).0

-- Whatever options a manager is started with and in whatever order events are published and handled,
-- its numbers are positive and its queue never holds more events than its size.
pub Running-IsBounded : (m : Manager) → Running m → IsBounded m
Running-IsBounded _ (starts os) = new_manager-IsBounded os
Running-IsBounded _ (publishes now evt m m' run e) =
    publish-IsBounded now evt m m' (Running-IsBounded m run) e
Running-IsBounded _ (works w m run) = worker-IsBounded w m (Running-IsBounded m run)
