-- ===== src/Alarms/Spacing.antt =====
-- The notifications that `notifyAll` makes of a log (portal/dashboard.js), and their delays.
use lmiced.Prelude.{
  ℕ, zero, suc, ◌+◌, ◌*◌, ◌<◌, ◌≡◌, refl, ◌∙◌, sym, ap, false, List, [], ◌∷◌, ◌++◌, All, All-append,
  some, ltb, map, arith, Bool-cases, Option-cases, inl, inr,
}
use lmiced.Alarms.{
  Entry, Alarms, Notification, sort_log, notify, notify_new, notify_all, worded, current_value,
}

-- `k` times, `step` apart
abbrev pub spaced : ℕ → ℕ → ℕ → List ℕ
spaced start step zero = []
spaced start step (suc k) = spaced start step k ++ (start + k * step) ∷ []

-- The notification is of an entry above `last` that no other has updated.
abbrev pub IsDue : ℕ → Notification → Type 0
IsDue last n = (last < n.entry.unique_id) × (n.entry.updated ≡ false)

-- `ns` is what was added between two states: `k` notifications, spaced from the penalty of the first.
record Added (last : ℕ) (a b : Alarms) : Type 0 where
  count : ℕ
  added : List Notification
  shown_added : b.shown ≡ a.shown ++ added
  delays : map Notification.delay added ≡ spaced a.ms_penalty a.ms_between_notifications count
  penalty : b.ms_penalty ≡ a.ms_penalty + count * a.ms_between_notifications
  between : b.ms_between_notifications ≡ a.ms_between_notifications
  are_due : All (IsDue last) added

append_nil : {A : Type 0} (xs : List A) → xs ++ [] ≡ xs
append_nil [] = refl
append_nil (x ∷ xs) = ap (λ ys. x ∷ ys) (append_nil xs)

append_assoc : {A : Type 0} (xs ys zs : List A) → (xs ++ ys) ++ zs ≡ xs ++ (ys ++ zs)
append_assoc [] ys zs = refl
append_assoc (x ∷ xs) ys zs = ap (λ l. x ∷ l) (append_assoc xs ys zs)

map-append : {A B : Type 0} (f : A → B) (xs ys : List A) → map f (xs ++ ys) ≡ map f xs ++ map f ys
map-append f [] ys = refl
map-append f (x ∷ xs) ys = ap (λ l. f x ∷ l) (map-append f xs ys)

Added-none : (last : ℕ) (a : Alarms) → Added last a a
Added-none last a = record {
  count = 0;
  added = [];
  shown_added = sym (append_nil a.shown);
  delays = refl;
  penalty = omega arith;
  between = refl;
  are_due = tt;
}

notify-Added :
    (last : ℕ) (e : Entry) (a b : Alarms)
    → last < e.unique_id
    → Added last a b
    → Added last a (notify e b)
unfolding notify
notify-Added last e a b h p = elim (Bool-cases e.updated) [
  | inl u ↦ rw u p
  | inr u ↦ elim (Option-cases (worded e b)) [
    | inl w ↦ rw (u, w) p
    | inr ((word, i), w) ↦
        let n : Notification = record {
          entry = e;
          value = current_value e b;
          wording = word;
          interaction = i;
          delay = b.ms_penalty;
        } in
        rw (u, w)
          (record {
            count = suc p.count;
            added = p.added ++ n ∷ [];
            shown_added =
                ap (λ l. l ++ n ∷ []) p.shown_added ∙ append_assoc a.shown p.added (n ∷ []);
            delays = map-append Notification.delay p.added (n ∷ []) ∙ rw (p.delays, p.penalty) refl;
            penalty = omega (arith, p.penalty, p.between);
            between = p.between;
            are_due = All-append (IsDue last) p.added (n ∷ []) p.are_due ((h, u), tt);
          })
  ]
]

notify_new-Added : (es : List Entry) (a : Alarms) → Added a.last_notification_id a (notify_new es a)
unfolding notify_new
notify_new-Added [] a = Added-none a.last_notification_id a
notify_new-Added (e ∷ es) a =
    let p = notify_new-Added es a in
    elim (Bool-cases (ltb a.last_notification_id e.unique_id)) [
      | inl h ↦ rw h (notify-Added a.last_notification_id e a (notify_new es a) (ground arith) p)
      | inr h ↦ rw h p
    ]

-- What a log adds to the notifications.
abbrev pub Spaced : Alarms → Alarms → Type 0
Spaced a b =
    (k : ℕ) × (ns : List Notification) × (b.shown ≡ a.shown ++ ns)
    × (map Notification.delay ns ≡ spaced 0 a.ms_between_notifications k)
    × All (IsDue a.last_notification_id) ns

sorted-Spaced :
    (log es : List Entry) (a : Alarms) → sort_log log ≡ es → Spaced a (notify_all (some log) a)
unfolding notify_all
sorted-Spaced log [] a h = rw (h, notify_all) (0, [], sym (append_nil a.shown), refl, tt)
sorted-Spaced log (e ∷ es) a h =
    let p = notify_new-Added (e ∷ es) (record a { ms_penalty = 0 }) in
    rw (h, notify_all) (p.count, p.added, p.shown_added, p.delays, p.are_due)

-- A log, in whatever order it comes, adds notifications after those that are there: each is of an
-- entry above the last notification that no other entry has updated, and they are shown at once, then
-- one every `ms_between_notifications`.
pub notify_all-Spaced : (log : List Entry) (a : Alarms) → Spaced a (notify_all (some log) a)
notify_all-Spaced log a = sorted-Spaced log (sort_log log) a refl
