-- ===== src/Alarms/Tests.antt =====
-- A log of four entries in no order, one of them seen before, one updated by another.
use lmiced.Alarms.{update}
use lmiced.Prelude.{ℕ, ◌≡◌, refl, true, false, List, [], ◌∷◌, map, none, some}
use lmiced.Alarms.{Status, clear, warning, critical, Entry, Alarms, Notification, notify_all}
use lmiced.Alarms.Log.{IsUpTo, notify_all-once}
use lmiced.Alarms.Spacing.{Spaced, notify_all-Spaced}

abbrev entry : ℕ → Status → Status → Entry
entry n old now = record {
  unique_id = n;
  alarm_id = n;
  alarm = 1;
  updated = false;
  status = now;
  old_status = old;
  no_clear_notification = false;
  value_string = 80;
}

abbrev log : List Entry
log =
    record (entry 12 clear warning) { updated = true }
    ∷ entry 14 critical clear
    ∷ entry 10 clear warning
    ∷ entry 13 warning critical
    ∷ []

abbrev alarms : Alarms
alarms = record {
  notifications = true;
  last_notification_id = 10;
  first_notification_id = 11;
  current = none;
  ms_penalty = 1500;
  ms_between_notifications = 500;
  stored_notification_id = 10;
  shown = [];
}

notify_all_test : map Notification.delay (notify_all (some log) alarms).shown ≡ 0 ∷ 500 ∷ []
unfolding notify_all
notify_all_test = refl

notify_all-once_example :
    let b = notify_all (some log) alarms in
    IsUpTo b.last_notification_id log × ((notify_all (some log) b).shown ≡ b.shown)
notify_all-once_example =
    notify_all-once (record (entry 12 clear warning) { updated = true })
      (entry 14 critical clear ∷ entry 10 clear warning ∷ entry 13 warning critical ∷ []) alarms

notify_all-Spaced_example : Spaced alarms (notify_all (some log) alarms)
notify_all-Spaced_example = notify_all-Spaced log alarms

-- The server has a newer entry than the last notification: the log is asked for.
update_test :
    (update true
      (some (record { alarms = []; latest_alarm_log_unique_id = 14; enabled = true }))
      alarms).1
    ≡ true
unfolding update
update_test = refl
