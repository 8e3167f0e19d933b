-- ===== src/Alarms/Log.antt =====
-- The alarm log that `notifyAll` reads (portal/dashboard.js), sorted and read again.
use lmiced.Prelude.{
  ℕ, ◌≤◌, ◌≡◌, refl, subst, ◌∙◌, sym, ap, false, List, [], ◌∷◌, All, some, ltb, arith, Bool-cases,
  inl, inr,
}
use lmiced.Alarms.{Entry, Alarms, insert_entry, sort_log, notify_new, notify_all}

-- No entry has an id above `n`.
abbrev pub IsUpTo : ℕ → List Entry → Type 0
IsUpTo n xs = All (λ y. y.unique_id ≤ n) xs

-- The largest `unique_id` comes first.
abbrev IsDescending : List Entry → Type 0
IsDescending [] = Unit
IsDescending (x ∷ xs) = IsUpTo x.unique_id xs × IsDescending xs

IsUpTo-more : (m n : ℕ) (xs : List Entry) → m ≤ n → IsUpTo m xs → IsUpTo n xs
IsUpTo-more m n [] h a = tt
IsUpTo-more m n (x ∷ xs) h (p, a) = (omega arith, IsUpTo-more m n xs h a)

insert_entry-IsUpTo :
    (n : ℕ) (e : Entry) (xs : List Entry)
    → e.unique_id ≤ n
    → IsUpTo n xs
    → IsUpTo n (insert_entry e xs)
unfolding insert_entry
insert_entry-IsUpTo n e [] p a = (p, tt)
insert_entry-IsUpTo n e (x ∷ xs) p (q, a) = elim (Bool-cases (ltb e.unique_id x.unique_id)) [
  | inl h ↦ rw h (q, insert_entry-IsUpTo n e xs p a)
  | inr h ↦ rw h (p, (q, a))
]

inserted-IsUpTo :
    (n : ℕ) (e : Entry) (xs : List Entry)
    → IsUpTo n (insert_entry e xs)
    → (e.unique_id ≤ n) × IsUpTo n xs
unfolding insert_entry
inserted-IsUpTo n e [] (p, a) = (p, tt)
inserted-IsUpTo n e (x ∷ xs) a = elim (Bool-cases (ltb e.unique_id x.unique_id)) [
  | inl h ↦
      let (q, b) : (x.unique_id ≤ n) × IsUpTo n (insert_entry e xs) = simp h at a in
      let (p, c) = inserted-IsUpTo n e xs b in (p, (q, c))
  | inr h ↦ let b : IsUpTo n (e ∷ x ∷ xs) = simp h at a in b
]

insert_entry-IsDescending :
    (e : Entry) (xs : List Entry) → IsDescending xs → IsDescending (insert_entry e xs)
unfolding insert_entry
insert_entry-IsDescending e [] d = (tt, tt)
insert_entry-IsDescending e (x ∷ xs) (u, d) = elim (Bool-cases (ltb e.unique_id x.unique_id)) [
  | inl h ↦
      rw h (insert_entry-IsUpTo x.unique_id e xs (ground arith) u, insert_entry-IsDescending e xs d)
  | inr h ↦
      let k : x.unique_id ≤ e.unique_id = ground arith in
      rw h ((k, IsUpTo-more x.unique_id e.unique_id xs k u), (u, d))
]

sort_log-IsDescending : (es : List Entry) → IsDescending (sort_log es)
unfolding sort_log
sort_log-IsDescending [] = tt
sort_log-IsDescending (e ∷ es) =
    insert_entry-IsDescending e (sort_log es) (sort_log-IsDescending es)

sorted-IsUpTo : (n : ℕ) (es : List Entry) → IsUpTo n (sort_log es) → IsUpTo n es
unfolding sort_log
sorted-IsUpTo n [] a = tt
sorted-IsUpTo n (e ∷ es) a =
    let (p, b) = inserted-IsUpTo n e (sort_log es) a in (p, sorted-IsUpTo n es b)

sort_log-IsUpTo : (n : ℕ) (es : List Entry) → IsUpTo n es → IsUpTo n (sort_log es)
unfolding sort_log
sort_log-IsUpTo n [] a = tt
sort_log-IsUpTo n (e ∷ es) (p, a) = insert_entry-IsUpTo n e (sort_log es) p (sort_log-IsUpTo n es a)

-- Entries that are not newer than the last notification are passed over.
notify_new-old :
    (es : List Entry) (a : Alarms) → IsUpTo a.last_notification_id es → notify_new es a ≡ a
unfolding notify_new
notify_new-old [] a u = refl
notify_new-old (e ∷ es) a (p, u) =
    let h : ltb a.last_notification_id e.unique_id ≡ false = ground arith in
    simp h (notify_new-old es a u)

insert_entry-cons :
    (e : Entry) (es : List Entry) → (x : Entry) × (xs : List Entry) × (insert_entry e es ≡ x ∷ xs)
unfolding insert_entry
insert_entry-cons e [] = (e, [], refl)
insert_entry-cons e (x ∷ xs) = elim (Bool-cases (ltb e.unique_id x.unique_id)) [
  | inl h ↦ (x, insert_entry e xs, rw h refl)
  | inr h ↦ (e, x ∷ xs, rw h refl)
]

-- The callback on a log whose sorted entries are `x ∷ xs`.
notify_all-sorted :
    (log xs : List Entry) (x : Entry) (a : Alarms)
    → sort_log log ≡ x ∷ xs
    → notify_all (some log) a ≡ record (notify_new (x ∷ xs) (record a { ms_penalty = 0 })) {
      last_notification_id = x.unique_id;
      stored_notification_id = x.unique_id;
    }
unfolding notify_all
notify_all-sorted log xs x a h = rw (h, notify_all) refl

-- The first of the sorted entries is the newest.
first-IsUpTo : (log xs : List Entry) (x : Entry) → sort_log log ≡ x ∷ xs → IsUpTo x.unique_id log
first-IsUpTo log xs x h =
    let (u, d) : IsDescending (x ∷ xs) = rw h at (sort_log-IsDescending log) in
    let v : IsUpTo x.unique_id (x ∷ xs) = (omega arith, u) in
    sorted-IsUpTo x.unique_id log (subst (IsUpTo x.unique_id) (sym h) v)

notify_all-old :
    (log : List Entry) (a : Alarms)
    → IsUpTo a.last_notification_id log
    → (notify_all (some log) a).shown ≡ a.shown
unfolding sort_log notify_all
notify_all-old [] a u = refl
notify_all-old (e ∷ es) a u =
    let (x, xs, h) = insert_entry-cons e (sort_log es) in
    let v : IsUpTo a.last_notification_id (x ∷ xs) =
      rw h at (sort_log-IsUpTo a.last_notification_id (e ∷ es) u) in
    ap Alarms.shown (notify_all-sorted (e ∷ es) xs x a h)
    ∙ ap Alarms.shown (notify_new-old (x ∷ xs) (record a { ms_penalty = 0 }) v)

-- Whatever the alarms before, once a log is read no entry of it is newer than the last notification,
-- so reading the same log again shows nothing.
pub notify_all-once :
    (e : Entry) (es : List Entry) (a : Alarms)
    → let log = e ∷ es in
      let b = notify_all (some log) a in
      IsUpTo b.last_notification_id log × ((notify_all (some log) b).shown ≡ b.shown)
unfolding sort_log
notify_all-once e es a =
    let log = e ∷ es in
    let (x, xs, h) = insert_entry-cons e (sort_log es) in
    let w = first-IsUpTo log xs x h in
    let last = ap Alarms.last_notification_id (notify_all-sorted log xs x a h) in
    let below = subst (λ n. IsUpTo n log) (sym last) w in
    (below, notify_all-old log (notify_all (some log) a) below)
