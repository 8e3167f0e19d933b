-- ===== src/Registry/Access/Tests.antt =====
-- The server 1 redirects to the server 2, which answers.
use lmiced.Prelude.{ℕ, ◌≡◌, refl, true, false, Option, none, some, [], ◌∷◌, nat_beq, if◌then◌else◌}
use lmiced.Registry.Access.{AccessReply, Servers, Known, access, ServerStatus, search}
use lmiced.Registry.Access.Redirects.{IsAnswered, access-IsAnswered}

abbrev redirecting : AccessReply
redirecting = record { ok = false; registry = some 2; person_guid = none; urls = none }

abbrev answering : AccessReply
answering = record { ok = true; registry = none; person_guid = some 77; urls = some [] }

abbrev servers : Servers
servers s = if nat_beq s 1 then some redirecting else some answering

abbrev known : Known
known = record { server = 1; person_guid = none; machine_guid = none; hostname = none; errors = [] }

access-IsAnswered_example : IsAnswered servers 2 known (access servers 2 known)
access-IsAnswered_example = access-IsAnswered servers 2 known

-- Without a redirect left the first server's refusal is the answer.
no_redirect : access servers 0 known ≡ (none, record known { errors = 409 ∷ [] })
unfolding access
no_redirect = refl

one_redirect :
    access servers 1 known
    ≡ (some [], record known { server = 2; person_guid = some 77; errors = 409 ∷ [] })
unfolding access
one_redirect = refl

abbrev bad : Option (ServerStatus ℕ)
bad = some (record { ok = false; reply = 5 })

codes : (search bad known).1.errors ≡ 417 ∷ []
unfolding search
codes = refl
