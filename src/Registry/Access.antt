-- ===== src/Registry/Access.antt =====
-- The requests to the registry (portal/dashboard.js): `NETDATA.registry.hello`, `access` with its redirects,
-- `delete`, `search`, `switch` and `init`. A server, a guid and a host are named by numbers; the answers
-- of the servers are an argument.
pub mod Redirects
mod Tests
use lmiced.Prelude.{
  ℕ, zero, suc, ◌-◌, Bool, true, false, not, ◌&&◌, ◌||◌, List, [], ◌∷◌, ◌++◌, Option, none, some,
  is_some, ltb, if◌then◌else◌,
}
use lmiced.Registry.{PersonUrl, Registry, parse_person_urls}

-- What a server answers to `action=access`: `ok` if its status is 'ok'.
pub record AccessReply : Type 0 where
  pub ok : Bool
  pub registry : Option ℕ
  pub person_guid : Option ℕ
  pub urls : Option (List PersonUrl)

-- The answer of each server; `none` if the request fails
abbrev pub Servers : Type 0
Servers = ℕ → Option AccessReply

-- `NETDATA.registry`
pub record Known : Type 0 where
  pub server : ℕ
  pub person_guid : Option ℕ
  pub machine_guid : Option ℕ
  pub hostname : Option ℕ
  pub errors : List ℕ  -- the codes that `NETDATA.error` was called with, the last one first

abbrev pub error : ℕ → Known → Known
error code k = record k { errors = code ∷ k.errors }

-- `if(typeof data.person_guid === 'string')`
abbrev pub take_person : Option ℕ → Known → Known
take_person none k = k
take_person (some g) k = record k { person_guid = some g }

-- `NETDATA.registry.access(max_redirects, callback)`: what the callback is given, `none` for null
unfoldable pub access : Servers → (max_redirects : ℕ) → Known → Option (List PersonUrl) × Known
access servers zero k = elim (servers k.server) [
  | none ↦ (none, error 410 k)
  | some r ↦ if r.ok then (r.urls, take_person r.person_guid k) else (none, error 409 k)
]
access servers (suc n) k = elim (servers k.server) [
  | none ↦ (none, error 410 k)
  | some r ↦ if r.ok then (r.urls, take_person r.person_guid k) else elim r.registry [
    | none ↦ (none, error 409 k)
    | some s ↦ access servers n (record (error 409 k) { server = s })
  ]
]

-- What a server answers to the other actions: a reply of the type `R`, and whether its status is 'ok'
pub record ServerStatus (R : Type 0) : Type 0 where
  pub ok : Bool
  pub reply : R

-- `hello`, `delete`, `search` and `switch`, which differ in their codes: what the callback is given, with the
-- codes for a reply that is not ok and for a request that fails.
ask : {R : Type 0} → (bad failed : ℕ) → Option (ServerStatus R) → Known → Option R × Known
ask bad failed none k = (none, error failed k)
ask bad failed (some r) k = if r.ok then (some r.reply, k) else (none, error bad k)

module _ {R : Type 0} where
  unfoldable pub hello : Option (ServerStatus R) → Known → Option R × Known
  unfolding ask
  hello = ask 408 407

  unfoldable pub delete : Option (ServerStatus R) → Known → Option R × Known
  unfolding ask
  delete = ask 411 412

  unfoldable pub search : Option (ServerStatus R) → Known → Option R × Known
  unfolding ask
  search = ask 417 418

  unfoldable pub switch : Option (ServerStatus R) → Known → Option R × Known
  unfolding ask
  switch = ask 413 414

-- What `hello` is answered with
pub record Greeting : Type 0 where
  pub registry : ℕ
  pub machine_guid : ℕ
  pub hostname : ℕ

-- `parsePersonUrls(person_urls)`: null changes nothing.
abbrev pub parse_or_keep : Option (List PersonUrl) → Registry → Registry
parse_or_keep none r = r
parse_or_keep (some urls) r = parse_person_urls urls

-- `NETDATA.registry.init()`, where the page uses the registry
unfoldable pub init : Servers → Option (ServerStatus Greeting) → Known × Registry → Known × Registry
init servers reply (k, r) =
    let (greeting, k') = hello reply k in
    elim greeting [
      | none ↦ (k', r)
      | some g ↦
          let (urls, k'') = access servers 2 (record k' {
            server = g.registry;
            machine_guid = some g.machine_guid;
            hostname = some g.hostname;
          }) in
          (k'', parse_or_keep urls r)
    ]
