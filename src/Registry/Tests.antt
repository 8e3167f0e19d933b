-- ===== src/Registry/Tests.antt =====
-- Three urls of two machines.
use lmiced.Prelude.{ℕ, ◌≡◌, refl, List, [], ◌∷◌}
use lmiced.Prelude.Dict.{lookup, insert, nat_identity}
use lmiced.Registry.{PersonUrl, parse_person_urls}
use lmiced.Registry.Machines.{own, Describes, parse_person_urls-Describes}

abbrev person_url : ℕ → ℕ → ℕ → PersonUrl
person_url g u t = record { guid = g; url = u; last_t = t; accesses = 2; name = u }

abbrev person_urls : List PersonUrl
person_urls = person_url 1 20 300 ∷ person_url 2 30 100 ∷ person_url 1 21 400 ∷ []

machines_array_test : (parse_person_urls person_urls).machines_array ≡ 1 ∷ 2 ∷ []
unfolding parse_person_urls lookup insert
machines_array_test = refl

parse_person_urls-Describes_example :
    Describes (own 1 person_urls) (lookup 1 (parse_person_urls person_urls).machines)
parse_person_urls-Describes_example = parse_person_urls-Describes person_urls 1
