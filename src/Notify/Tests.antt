-- ===== src/Notify/Tests.antt =====
-- The theorems about the notifications at concrete inputs.
use qcc_plus.Prelude.{ℕ, String, pos, inr, some, none, List, [], ◌∷◌, refl, ◌≡◌}
use qcc_plus.Notify.Defs.{
  Event, Manager, Channel, Outside, with_queue_size, new_manager, publish, worker, apply_options,
  apply_option,
}
use qcc_plus.Notify.Spacing.{Spaced, let_through, let_through-Spaced}
use qcc_plus.Notify.Delivery.{Running, IsBounded, starts, publishes, works, Running-IsBounded}

abbrev down : Event
down = record {
  account_id = "acc";
  event_type = "node_failed";
  title = "down";
  content = "n-1";
  dedup_key = "n-1";
  occurred_at = 7;
}

abbrev wechat : Channel
wechat = record { id = "c-1"; channel_type = "wechat_work" }

abbrev outside : Outside
outside = record {
  subscriptions = λ account event. inr (wechat ∷ []);
  build_channel = λ ch. none;
  send = λ i ch m. none;
  insert_history = λ i. none;
  checked_at = λ i. 10;
  sent_at = λ i. 11;
  stored_at = λ i. 12;
  random_id = λ i. "id";
}

abbrev started : Manager
started = new_manager (with_queue_size (pos 1) ∷ [])

abbrev queued : Manager
queued = record started { queue = down ∷ [] }

first_publish : publish 5 down (some started) ≡ some queued
unfolding publish new_manager apply_options apply_option
first_publish = refl

run : Running (worker outside queued).0
run =
    works outside queued
      (publishes 5 down started queued (starts (with_queue_size (pos 1) ∷ [])) first_publish)

Running-IsBounded_example : IsBounded (worker outside queued).0
Running-IsBounded_example = Running-IsBounded (worker outside queued).0 run

abbrev asked : List (String × ℕ)
asked = ("k", 10) ∷ ("j", 20) ∷ ("k", 30) ∷ ("k", 200) ∷ []

abbrev narrow : Manager
narrow = record started { cfg = record started.cfg { dedup_window = pos 100 } }

let_through-Spaced_example : Spaced 100 (let_through asked narrow)
let_through-Spaced_example = let_through-Spaced 100 asked narrow refl
