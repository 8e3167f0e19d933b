-- ===== src/Registry/Machines.antt =====
-- `parsePersonUrls` (portal/dashboard.js), machine by machine.
use lmiced.Prelude.{
  ℕ, ◌+◌, ◌≤◌, ◌≡◌, refl, sym, subst, ap, ◌≢◌, ◌⊎◌, true, false, List, [], ◌∷◌, ◌++◌, All, Option,
  none, some, ltb, nat_beq, nat_beq_iff, nat_beq-false, arith, Bool-cases, Option-cases, inl, inr,
  if◌then◌else◌,
}
use lmiced.Prelude.Dict.{lookup, nat_identity, lookup-insert_self, lookup-insert_ne}
use lmiced.Registry.{
  PersonUrl, Machine, Registry, new_machine, append_url, add_url, parse_person_urls,
}

-- The entries of one machine.
abbrev pub own : ℕ → List PersonUrl → List PersonUrl
own g [] = []
own g (p ∷ ps) = if nat_beq p.guid g then p ∷ own g ps else own g ps

abbrev pub total : List PersonUrl → ℕ
total [] = 0
total (p ∷ ps) = total ps + p.accesses

abbrev pub urls : List PersonUrl → List ℕ
urls [] = []
urls (p ∷ ps) = urls ps ++ p.url ∷ []

-- One of the entries has the machine's url, name and time.
abbrev pub Shows : Machine → List PersonUrl → Type 0
Shows m [] = ⊥
Shows m (p ∷ ps) = ((p.url ≡ m.url) × (p.name ≡ m.name) × (p.last_t ≡ m.last_t)) ⊎ Shows m ps

-- What a machine is, given its entries: all their accesses and urls, and the url and name of the latest.
abbrev pub Sums : List PersonUrl → Machine → Type 0
Sums ps m =
    (m.accesses ≡ total ps)
    × (m.alternate_urls ≡ urls ps)
    × All (λ p. p.last_t ≤ m.last_t) ps
    × Shows m ps

abbrev pub Describes : List PersonUrl → Option Machine → Type 0
Describes [] none = Unit {0}
Describes [] (some m) = ⊥
Describes (p ∷ ps) none = ⊥
Describes (p ∷ ps) (some m) = Sums (p ∷ ps) m

All-later :
    (a b : ℕ) (ps : List PersonUrl)
    → a ≤ b
    → All (λ p. p.last_t ≤ a) ps
    → All (λ p. p.last_t ≤ b) ps
All-later a b [] h t = tt
All-later a b (p ∷ ps) h (q, t) = (omega arith, All-later a b ps h t)

counted : PersonUrl → Machine → Machine
counted p m = record m {
  accesses = m.accesses + p.accesses;
  alternate_urls = m.alternate_urls ++ p.url ∷ [];
}

append_url-newer :
    (p : PersonUrl) (m : Machine)
    → ltb m.last_t p.last_t ≡ true
    → append_url p m ≡ record (counted p m) { url = p.url; last_t = p.last_t; name = p.name }
unfolding append_url counted
append_url-newer p m h = rw h refl

append_url-older :
    (p : PersonUrl) (m : Machine) → ltb m.last_t p.last_t ≡ false → append_url p m ≡ counted p m
unfolding append_url counted
append_url-older p m h = rw h refl

append_url-Sums :
    (p : PersonUrl) (ps : List PersonUrl) (m : Machine) → Sums ps m → Sums (p ∷ ps) (append_url p m)
unfolding counted
append_url-Sums p ps m (a, u, l, s) =
    let sum : m.accesses + p.accesses ≡ total ps + p.accesses = omega (arith, a) in
    let list = ap (λ us. us ++ p.url ∷ []) u in
    elim (Bool-cases (ltb m.last_t p.last_t)) [
      | inl h ↦
          let later = All-later m.last_t p.last_t ps (ground arith) l in
          subst (Sums (p ∷ ps)) (sym (append_url-newer p m h))
            (sum, list, (omega arith, later), inl (refl, refl, refl))
      | inr h ↦
          subst (Sums (p ∷ ps)) (sym (append_url-older p m h)) (sum, list, (ground arith, l), inr s)
    ]

describe_new :
    (p : PersonUrl) (ps : List PersonUrl)
    → Describes ps none
    → Describes (p ∷ ps) (some (new_machine p))
unfolding new_machine
describe_new p [] d = (omega arith, refl, (omega arith, tt), inl (refl, refl, refl))
describe_new p (q ∷ qs) d = absurd d

describe_more :
    (p : PersonUrl) (ps : List PersonUrl) (m : Machine)
    → Describes ps (some m)
    → Describes (p ∷ ps) (some (append_url p m))
describe_more p [] m d = absurd d
describe_more p (q ∷ qs) m d = append_url-Sums p (q ∷ qs) m d

add_url-new :
    (p : PersonUrl) (r : Registry)
    → lookup p.guid r.machines ≡ none
    → lookup p.guid (add_url p r).machines ≡ some (new_machine p)
unfolding add_url
add_url-new p r n = rw (n, add_url) (lookup-insert_self p.guid (new_machine p) r.machines)

add_url-known :
    (p : PersonUrl) (r : Registry) (m : Machine)
    → lookup p.guid r.machines ≡ some m
    → lookup p.guid (add_url p r).machines ≡ some (append_url p m)
unfolding add_url
add_url-known p r m n = rw (n, add_url) (lookup-insert_self p.guid (append_url p m) r.machines)

add_url-other :
    (p : PersonUrl) (r : Registry) (g : ℕ)
    → p.guid ≢ g
    → lookup g (add_url p r).machines ≡ lookup g r.machines
unfolding add_url
add_url-other p r g ne = elim (Option-cases (lookup p.guid r.machines)) [
  | inl n ↦ rw (n, add_url) (lookup-insert_ne p.guid g (new_machine p) r.machines ne)
  | inr (m, n) ↦ rw (n, add_url) (lookup-insert_ne p.guid g (append_url p m) r.machines ne)
]

-- A list of the entries of one machine, with one more.
add_url-Describes :
    (p : PersonUrl) (ps : List PersonUrl) (r : Registry)
    → Describes ps (lookup p.guid r.machines)
    → Describes (p ∷ ps) (lookup p.guid (add_url p r).machines)
add_url-Describes p ps r d = elim (Option-cases (lookup p.guid r.machines)) [
  | inl n ↦
      subst (Describes (p ∷ ps)) (sym (add_url-new p r n))
        (describe_new p ps (subst (Describes ps) n d))
  | inr (m, n) ↦
      subst (Describes (p ∷ ps)) (sym (add_url-known p r m n))
        (describe_more p ps m (subst (Describes ps) n d))
]

-- A machine is in `machines` exactly if the reply has entries of its guid. Its accesses are the sum of
-- theirs, its `alternate_urls` are their urls from the last entry to the first, and its url, name and
-- time are those of an entry of its own that no other is later than.
pub parse_person_urls-Describes :
    (ps : List PersonUrl) (g : ℕ) → Describes (own g ps) (lookup g (parse_person_urls ps).machines)
unfolding parse_person_urls lookup
parse_person_urls-Describes [] g = tt
parse_person_urls-Describes (p ∷ ps) g =
    let r = parse_person_urls ps in
    let d = parse_person_urls-Describes ps g in
    elim (Bool-cases (nat_beq p.guid g)) [
      | inl e ↦
          let same = (nat_beq_iff p.guid g).0 e in
          rw e (
            subst
              (λ h.
                Describes (own h ps) (lookup h r.machines)
                → Describes (p ∷ own h ps) (lookup h (add_url p r).machines))
              same (add_url-Describes p (own p.guid ps) r) d)
      | inr e ↦
          rw e
            (subst (Describes (own g ps)) (sym (add_url-other p r g (nat_beq-false p.guid g e))) d)
    ]
