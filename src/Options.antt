-- ===== src/Options.antt =====
-- The dashboard's options and the browser's storage behind them (portal/dashboard.js):
-- `localStorageGet`, `localStorageSet`, `setOption`, `getOption`, `resetOptions`. The option
-- `setOptionCallback`, a function, is none of the keys.
pub mod Stored
pub mod Reset
pub mod Tests
use lmiced.Prelude.{
  ℕ, ◌≡◌, refl, ap, ◌↔◌, Bool, true, false, not, ◌&&◌, ◌||◌, List, [], ◌∷◌, map, Option, none, some,
  is_some, arith, if◌then◌else◌,
}
use lmiced.Prelude.Dict.{Dict, Identity, ◌===◌, lookup, insert}

-- A key of the storage: `'options.' + key`, `'chart_heights.' + id`, or a word of its own.
pub data Name (K : Type 0) : Type 0 where
  options : K → Name K
  chart_heights : K → Name K
  single : K → Name K

abbrev pub same_name : {K : Type 0} → ⦃i : Identity K⦄ → Name K → Name K → Bool
same_name (options k) (options l) = k === l
same_name (chart_heights k) (chart_heights l) = k === l
same_name (single k) (single l) = k === l
same_name _ _ = false

pub same_name_iff :
    {K : Type 0} → ⦃i : Identity K⦄ → (m n : Name K) → (same_name m n ≡ true) ↔ (m ≡ n)
same_name_iff ⦃i⦄ (options k) (options l) = grind (arith, i.same_iff k l)
same_name_iff ⦃i⦄ (options k) (chart_heights l) = grind arith
same_name_iff ⦃i⦄ (options k) (single l) = grind arith
same_name_iff ⦃i⦄ (chart_heights k) (options l) = grind arith
same_name_iff ⦃i⦄ (chart_heights k) (chart_heights l) = grind (arith, i.same_iff k l)
same_name_iff ⦃i⦄ (chart_heights k) (single l) = grind arith
same_name_iff ⦃i⦄ (single k) (options l) = grind arith
same_name_iff ⦃i⦄ (single k) (chart_heights l) = grind arith
same_name_iff ⦃i⦄ (single k) (single l) = grind (arith, i.same_iff k l)

instance abbrev pub name_identity : {K : Type 0} → ⦃i : Identity K⦄ → Identity (Name K)
name_identity = record { same = same_name; same_iff = same_name_iff }

-- `JSON.stringify` and `JSON.parse` on the values that options have; `parse` answers `none` where it
-- throws. `is_undefined` is `typeof v === 'undefined' || v === 'undefined'`.
pub record Json (V S : Type 0) : Type 0 where
  pub stringify : V → S
  pub parse : S → Option V
  pub is_undefined : V → Bool
  pub undefined_text : S → Bool
  pub parse-stringify : (v : V) → is_undefined v ≡ false → parse (stringify v) ≡ some v
  pub stringify-text : (v : V) → is_undefined v ≡ false → undefined_text (stringify v) ≡ false

-- `NETDATA.localStorage`, the browser's `localStorage` and `NETDATA.options.current`. `usable` is what
-- `localStorageTest()` answers, `writable` is false if `setItem` throws. No default is `undefined`.
pub record Storage (K V S : Type 0) : Type 0 where
  pub default : Dict (Name K) V
  pub current : Dict (Name K) V
  pub callback : Dict (Name K) Bool  -- is there a function?
  pub browser : Dict (Name K) S
  pub usable : Bool
  pub writable : Bool
  pub options : Dict K V
  pub reset_heights : List (K × V)  -- the calls of callbacks so far, the latest first

module _ {K V S : Type 0} ⦃i : Identity K⦄ (w : Identity V) (j : Json V S) where
  -- `localStorage.setItem(key, JSON.stringify(v))`
  write : Name K → V → Storage K V S → Dict (Name K) S
  write n v s = if s.writable then insert n (j.stringify v) s.browser else s.browser

  -- The value that `localStorageGet` finds, and the browser's storage after it.
  read : Name K → V → Storage K V S → V × Dict (Name K) S
  unfolding write
  read n def s = if not s.usable then (def, s.browser) else (elim (lookup n s.browser) [
    | none ↦ (def, write n def s)
    | some t ↦
        if j.undefined_text t
        then (def, write n def s)
        else (elim (j.parse t) [ none ↦ def | some v ↦ v ], s.browser)
  ])

  -- `localStorageGet(key, def, callback)`
  pub storage_get : Name K → V → Bool → Storage K V S → V × Storage K V S
  unfolding read
  storage_get n def callback s =
      let known = is_some (lookup n s.default) in
      let (r, b) = read n def s in
      let v = (if j.is_undefined r then def else r) in
      (
        v,
        record s {
          default = if known then s.default else insert n def s.default;
          callback = if known then s.callback else insert n callback s.callback;
          browser = b;
          current = insert n v s.current;
        },
      )

  -- `localStorageSet(key, value, callback)`
  pub storage_set : Name K → V → Bool → Storage K V S → Storage K V S
  unfolding write
  storage_set n v callback s =
      let known = is_some (lookup n s.default) in
      record s {
        default = if known then s.default else insert n v s.default;
        callback = if known then s.callback else insert n callback s.callback;
        browser = if s.usable then write n v s else s.browser;
        current = insert n v s.current;
      }

  -- `NETDATA.options.current[key] === value`
  has_value : K → V → Storage K V S → Bool
  has_value k v s = elim (lookup k s.options) [ none ↦ false | some u ↦ w.same u v ]

  -- `setOption(key, value)`
  pub set_option : K → V → Storage K V S → Storage K V S
  unfolding has_value storage_set
  set_option k v s =
      if has_value k v s
      then s
      else let t = storage_set (options k) v false s in record t { options = insert k v t.options }

  -- `getOption(key)`
  unfoldable pub get_option : K → Storage K V S → Option V
  get_option k s = lookup k s.options

  -- `localStorageGetRecursive(NETDATA.options.current, 'options', null)`, whose values are no objects:
  -- from the last key to the first.
  pub load_options : Dict K V → Storage K V S → Storage K V S
  unfolding storage_get
  load_options [] s = s
  load_options ((k, def) ∷ d) s =
      let (v, t) = storage_get (options k) def false (load_options d s) in
      record t { options = insert k v t.options }

  -- The options when the page is loaded: they are read from the storage, and the option `stop`, which is
  -- 'stop_updates_when_focus_is_lost', is set to `always`, which is true.
  pub load_page : (stop : K) → (always : V) → Dict K V → Storage K V S → Storage K V S
  unfolding load_options set_option
  load_page stop always d s = set_option stop always (load_options d s)

  -- One round of `resetOptions`. The test of `NETDATA.options.current[i]` has no effect, since `i`
  -- still has its prefix there.
  reset_name : Name K → Storage K V S → Storage K V S
  unfolding set_option
  reset_name (options k) s = elim (lookup (options k) s.default) [
    | none ↦ s
    | some v ↦ set_option k v s
  ]
  reset_name (chart_heights k) s = elim (lookup (chart_heights k) s.default) [
    | none ↦ s
    | some v ↦
        if (elim (lookup (chart_heights k) s.callback) [ none ↦ false | some f ↦ f ])
        then record s { reset_heights = (k, v) ∷ s.reset_heights }
        else s
  ]
  reset_name (single k) s = s

  reset_names : Dict (Name K) V → Storage K V S → Storage K V S
  unfolding reset_name
  reset_names [] s = s
  reset_names ((n, v) ∷ d) s = reset_name n (reset_names d s)

  -- `resetOptions()`: from the last key of the defaults to the first
  unfoldable pub reset_options : Storage K V S → Storage K V S
  unfolding reset_names
  reset_options s = reset_names s.default s

-- The page is loaded again: only the browser's storage is kept.
abbrev pub reload : {K V S : Type 0} → Storage K V S → Storage K V S
reload s = record s { default = []; current = []; callback = []; options = []; reset_heights = [] }
