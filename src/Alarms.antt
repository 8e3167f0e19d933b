-- ===== src/Alarms.antt =====
-- The notifications of alarms (portal/dashboard.js, `NETDATA.alarms`): `notify`, `notifyAll`,
-- `check_notifications`, `get` and `update_forever`, each request's end as a function of its own. A
-- text that is only passed on is named by a number.
pub mod Log
pub mod Spacing
pub mod Tests
use lmiced.Prelude.{
  ℕ, ◌+◌, Bool, true, false, not, ◌&&◌, ◌||◌, List, [], ◌∷◌, ◌++◌, Option, none, some, ltb, nat_beq,
  is_some, if◌then◌else◌,
}
use lmiced.Prelude.Dict.{Dict, lookup, nat_identity}

-- `other` is a status that `notify` does not know.
pub data Status : Type 0 where
  removed undefined uninitialized clear warning critical other : Status

-- An entry of the alarm log. `alarm` names `entry.chart + '.' + entry.name`.
pub record Entry : Type 0 where
  pub unique_id : ℕ
  pub alarm_id : ℕ
  pub alarm : ℕ
  pub updated : Bool
  pub status : Status
  pub old_status : Status
  pub no_clear_notification : Bool
  pub value_string : ℕ

-- A raised alarm, as in `current.alarms`
pub record Raised : Type 0 where
  pub status : Status
  pub value_string : Option ℕ

-- What the server answers about the raised alarms; `enabled` is false for `status === false`.
pub record Active : Type 0 where
  pub alarms : Dict ℕ Raised
  pub latest_alarm_log_unique_id : ℕ
  pub enabled : Bool

-- How the notification words the status
pub data Wording : Type 0 where
  plain demoted escalated normal : Wording

-- A `Notification` and the time after which it is shown
pub record Notification : Type 0 where
  pub entry : Entry
  pub value : ℕ
  pub wording : Wording
  pub interaction : Bool
  pub delay : ℕ

pub record Alarms : Type 0 where
  pub notifications : Bool
  pub last_notification_id : ℕ
  pub first_notification_id : ℕ
  pub current : Option Active
  pub ms_penalty : ℕ
  pub ms_between_notifications : ℕ
  pub stored_notification_id : ℕ  -- in the browser's local storage
  pub shown : List Notification  -- in the order of the calls of `setTimeout`

is_status : Status → Status → Bool
is_status removed removed = true
is_status undefined undefined = true
is_status uninitialized uninitialized = true
is_status clear clear = true
is_status warning warning = true
is_status critical critical = true
is_status other other = true
is_status _ _ = false

-- `value_string`, which the raised alarm may have newer
current_value : Entry → Alarms → ℕ
unfolding is_status
current_value e a = elim a.current [
  | none ↦ e.value_string
  | some c ↦ elim (lookup e.alarm c.alarms) [
    | none ↦ e.value_string
    | some r ↦
        if is_status e.status r.status
        then (elim r.value_string [ none ↦ e.value_string | some v ↦ v ])
        else e.value_string
  ]
]

-- The `switch` over the status: `none` where it returns or sets `show` to false.
worded : Entry → Alarms → Option (Wording × Bool)
unfolding is_status
worded e a = elim e.status [
  | removed ↦ none
  | undefined ↦ none
  | uninitialized ↦ none
  | other ↦ none
  | clear ↦
      if ltb e.unique_id a.first_notification_id
        || is_status e.old_status uninitialized
        || is_status e.old_status undefined
        || e.no_clear_notification
      then none
      else some (normal, false)
  | warning ↦ some (if is_status e.old_status critical then demoted else plain, false)
  | critical ↦ some (if is_status e.old_status warning then escalated else plain, true)
]

-- `notify(entry)`
pub notify : Entry → Alarms → Alarms
unfolding current_value worded
notify e a = if e.updated then a else elim (worded e a) [
  | none ↦ a
  | some (w, interaction) ↦ record a {
    shown =
        a.shown
        ++ record {
          entry = e;
          value = current_value e a;
          wording = w;
          interaction = interaction;
          delay = a.ms_penalty;
        }
          ∷ [];
    ms_penalty = a.ms_penalty + a.ms_between_notifications;
  }
]

-- `data.sort(…)`: the largest `unique_id` first, entries of one id in their order
insert_entry : Entry → List Entry → List Entry
insert_entry e [] = e ∷ []
insert_entry e (x ∷ xs) = if ltb e.unique_id x.unique_id then x ∷ insert_entry e xs else e ∷ x ∷ xs

pub sort_log : List Entry → List Entry
unfolding insert_entry
sort_log [] = []
sort_log (e ∷ es) = insert_entry e (sort_log es)

-- `while(len--)`: from the last entry of the sorted log to the first
notify_new : List Entry → Alarms → Alarms
unfolding notify
notify_new [] a = a
notify_new (e ∷ es) a =
    let b = notify_new es a in if ltb a.last_notification_id e.unique_id then notify e b else b

-- The callback of `get_log` in `notifyAll`: `none` for a reply that is no log.
unfoldable pub notify_all : Option (List Entry) → Alarms → Alarms
unfolding sort_log notify_new
notify_all none a = a
notify_all (some log) a = elim (sort_log log) [
  | [] ↦ a
  | newest ∷ older ↦
      let b = notify_new (newest ∷ older) (record a { ms_penalty = 0 }) in
      record b {
        last_notification_id = newest.unique_id;
        stored_notification_id = newest.unique_id;
      }
]

-- `check_notifications()`: `granted` is the browser's permission. It is called with `current` set.
pub check_notifications : Bool → Alarms → Bool
check_notifications granted a = a.notifications && granted && (elim a.current [
  | none ↦ false
  | some c ↦ ltb a.last_notification_id c.latest_alarm_log_unique_id
])

-- The end of the request of `update_forever`, with the `done` and `fail` of `get`: the state, whether
-- `notifyAll` asks for the log, and whether the next update is planned.
unfoldable pub update : Bool → Option Active → Alarms → Alarms × Bool × Bool
unfolding check_notifications
update granted none a = (a, false, true)
update granted (some c) a =
    let b = record a {
      first_notification_id =
          if nat_beq a.first_notification_id 0
          then c.latest_alarm_log_unique_id
          else a.first_notification_id;
      current = some c;
    } in
    (b, check_notifications granted b, c.enabled)
