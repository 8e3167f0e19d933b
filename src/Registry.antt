-- ===== src/Registry.antt =====
-- The machines that the registry knows of (portal/dashboard.js, `NETDATA.registry.parsePersonUrls`). A
-- text that is only passed on or compared is named by a number; a machine of `machines_array` is named
-- by its guid, which stands for the reference that it shares with `machines`.
pub mod Access
pub mod Machines
pub mod Tests
use lmiced.Prelude.{
  ℕ, ◌+◌, Bool, true, false, List, [], ◌∷◌, ◌++◌, Option, none, some, ltb, nat_beq, if◌then◌else◌,
}
use lmiced.Prelude.Dict.{Dict, lookup, insert, nat_identity}

-- `person_urls[i]`: its five entries in order
pub record PersonUrl : Type 0 where
  pub guid : ℕ
  pub url : ℕ
  pub last_t : ℕ
  pub accesses : ℕ
  pub name : ℕ

pub record Machine : Type 0 where
  pub guid : ℕ
  pub url : ℕ
  pub last_t : ℕ
  pub accesses : ℕ
  pub name : ℕ
  pub alternate_urls : List ℕ

pub record Registry : Type 0 where
  pub machines : Dict ℕ Machine
  pub machines_array : List ℕ

-- "adding"
new_machine : PersonUrl → Machine
new_machine p = record {
  guid = p.guid;
  url = p.url;
  last_t = p.last_t;
  accesses = p.accesses;
  name = p.name;
  alternate_urls = p.url ∷ [];
}

-- "appending"
append_url : PersonUrl → Machine → Machine
append_url p m =
    let latest =
      (if ltb m.last_t p.last_t
        then record m { url = p.url; last_t = p.last_t; name = p.name }
        else m) in
    record latest {
      accesses = m.accesses + p.accesses;
      alternate_urls = m.alternate_urls ++ p.url ∷ [];
    }

add_url : PersonUrl → Registry → Registry
unfolding new_machine append_url
add_url p r = elim (lookup p.guid r.machines) [
  | none ↦ record {
    machines = insert p.guid (new_machine p) r.machines;
    machines_array = r.machines_array ++ p.guid ∷ [];
  }
  | some m ↦ record r { machines = insert p.guid (append_url p m) r.machines }
]

-- `parsePersonUrls(person_urls)` for a reply that has them: from the last to the first
unfoldable pub parse_person_urls : List PersonUrl → Registry
unfolding add_url
parse_person_urls [] = record { machines = []; machines_array = [] }
parse_person_urls (p ∷ ps) = add_url p (parse_person_urls ps)
