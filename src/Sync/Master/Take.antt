-- ===== src/Sync/Master/Take.antt =====
-- `setMaster` (portal/dashboard.js), for a chart that is not the master yet.
use lmiced.Prelude.{
  zero, suc, List, [], ◌∷◌, ℕ, ◌+◌, ◌≡◌, refl, ◌≢◌, ◌↔◌, ◌∙◌, true, false, some, nat_beq,
  nat_beq_iff, get_elem?, set, get_elem?-set_ne, get_elem?-set_self, arith, Bool-cases, inl, inr,
  ap, length, ◌<◌,
}
use lmiced.Prelude.Int.{ℤ}
use lmiced.Chart.{Chart, Env, auto, unforced}
use lmiced.Chart.Life.{set_mode}
use lmiced.Chart.Window.{is_master, is_active, should_be_auto_refreshed}
use lmiced.Sync.{Dashboard}
use lmiced.Sync.Master.{reset_local, reset_rest, reset_with, reset_chart, displace, set_master}

-- What a reset leaves of a chart: it follows the time again, due at once, with no range forced.
abbrev pub IsReset : Chart → Type 0
IsReset c =
    (c.current ≡ auto)
    × (c.auto_mode ≡ unforced)
    × (c.tm.pan_and_zoom_seq ≡ 0)
    × (c.tm.last_autorefreshed ≡ 0)
    × (c.paused ≡ false)
    × (c.selected ≡ false)
    × (c.enabled ≡ true)

pub reset_local-IsReset : (e : Env) (c : Chart) → IsReset (reset_local e c)
unfolding reset_local set_mode
reset_local-IsReset e c = ground arith

pub get_elem?-some : (cs : List Chart) (i : ℕ) (c : Chart) → get_elem? cs i ≡ some c → i < length cs
get_elem?-some [] i c h = absurd (cc)
get_elem?-some (x ∷ xs) zero c h = omega arith
get_elem?-some (x ∷ xs) (suc i) c h = omega (arith, get_elem?-some xs i c h)

reset_rest-local :
    (e : Env) (m : ℕ) (c : Chart) (d : Dashboard)
    → get_elem? d.targets m ≡ some c
    → (reset_rest e true m d).targets ≡ set d.targets m (reset_local e c)
unfolding reset_rest
reset_rest-local e m c d h = rw (h, reset_rest) refl

pub displace-other :
    (e : Env) (i m : ℕ) (d : Dashboard)
    → d.pan.master ≡ some m
    → m ≢ i
    → displace e i d ≡ reset_rest e true m d
unfolding displace reset_chart reset_with
displace-other e i m d h ne = elim (Bool-cases (nat_beq m i)) [
  | inl t ↦ absurd (ne ((nat_beq_iff m i).0 t))
  | inr t ↦ rw (h, t) refl
]

-- The charts after the reset of a master that is displaced.
displace-targets :
    (e : Env) (i m : ℕ) (c : Chart) (d : Dashboard)
    → d.pan.master ≡ some m
    → m ≢ i
    → get_elem? d.targets m ≡ some c
    → (displace e i d).targets ≡ set d.targets m (reset_local e c)
displace-targets e i m c d h ne g =
    ap Dashboard.targets (displace-other e i m d h ne) ∙ reset_rest-local e m c d g

-- The chart `i` takes over from the master `m`, whose chart is `c`.
abbrev pub TakesOver : Env → ℕ → ℕ → Chart → Dashboard → Dashboard → Type 0
TakesOver e i m c d t =
    (is_master i t.pan ≡ true)
    × (get_elem? t.targets m ≡ some (reset_local e c))
    × IsReset (reset_local e c)
    × ((j : ℕ) → m ≢ j → get_elem? t.targets j ≡ get_elem? d.targets j)

taken : Env → ℕ → ℤ → ℤ → Dashboard → Dashboard
taken e i after before d = record d {
  pan = record {
    seq = e.now;
    master = some i;
    force_before = some before;
    force_after = some after;
  };
  stop_until = e.now + e.global_pan_sync_time;
}

set_master-taken :
    (e : Env) (i : ℕ) (after before : ℤ) (d : Dashboard)
    → e.sync_pan_and_zoom ≡ true
    → set_master e i after before d ≡ taken e i after before (displace e i d)
unfolding set_master taken
set_master-taken e i after before d s = simp s refl

taken-TakesOver :
    (e : Env) (i m : ℕ) (after before : ℤ) (c : Chart) (d x : Dashboard)
    → e.now ≢ 0
    → get_elem? d.targets m ≡ some c
    → x.targets ≡ set d.targets m (reset_local e c)
    → let t = taken e i after before x in
      TakesOver e i m c d t
      × (is_active t.pan ≡ true)
      × ((u : Chart) → (should_be_auto_refreshed t.pan u ≡ true) ↔ (u.tm.pan_and_zoom_seq ≢ e.now))
unfolding taken is_master is_active should_be_auto_refreshed
taken-TakesOver e i m after before c d x z g k =
    let w = get_elem?-set_self d.targets m (reset_local e c) (get_elem?-some d.targets m c g) in
    (
      (
        (nat_beq_iff i i).1 refl,
        ap (λ cs. get_elem? cs m) k ∙ w,
        reset_local-IsReset e c,
        λ j n. ap (λ cs. get_elem? cs j) k ∙ get_elem?-set_ne d.targets (reset_local e c) n,
      ),
      ground arith,
      λ u. ground arith,
    )

-- With the synchronisation on, a chart that sets itself the master over another one takes over: the
-- former master is reset (mode `auto`, nothing forced, enabled, neither paused nor selected, due at
-- once) and no other chart changes. Once the clock is past 0, a pan or zoom is active, and exactly the
-- charts not drawn under the new number of the sequence are to be refreshed.
pub set_master-TakesOver :
    (e : Env) (i m : ℕ) (after before : ℤ) (c : Chart) (d : Dashboard)
    → e.sync_pan_and_zoom ≡ true
    → e.now ≢ 0
    → d.pan.master ≡ some m
    → m ≢ i
    → get_elem? d.targets m ≡ some c
    → let t = set_master e i after before d in
      TakesOver e i m c d t
      × (is_active t.pan ≡ true)
      × ((u : Chart) → (should_be_auto_refreshed t.pan u ≡ true) ↔ (u.tm.pan_and_zoom_seq ≢ e.now))
set_master-TakesOver e i m after before c d s z h ne g =
    simp (set_master-taken e i after before d s) (
      taken-TakesOver e i m after before c d (displace e i d) z g
        (displace-targets e i m c d h ne g))
