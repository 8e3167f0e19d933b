-- ===== src/Registry/Access/Redirects.antt =====
-- The redirects of `NETDATA.registry.access` (portal/dashboard.js).
use lmiced.Prelude.{
  ℕ, zero, suc, ◌+◌, ◌≤◌, ◌≡◌, refl, ◌⊎◌, inl, inr, ap, sym, subst, true, false, List, Option, none,
  some, length, arith, Bool-cases, Option-cases,
}
use lmiced.Registry.{PersonUrl}
use lmiced.Registry.Access.{AccessReply, Servers, Known, error, take_person, access}

-- The server `t` comes `n` redirects after the server `s`.
pub data Follows (servers : Servers) : ℕ → ℕ → ℕ → Type 0 where
  here : (s : ℕ) → Follows servers s 0 s
  redirected :
      (s u t n : ℕ) (r : AccessReply)
      → servers s ≡ some r
      → r.ok ≡ false
      → r.registry ≡ some u
      → Follows servers u n t
      → Follows servers s (suc n) t

-- The server `s` is asked last, after `n` redirects of at most `max`, for the answer `urls`.
pub data EndsAt (servers : Servers) (max n s : ℕ) (urls : Option (List PersonUrl)) : Type 0 where
  fails : servers s ≡ none → urls ≡ none → EndsAt servers max n s urls
  answers :
      (r : AccessReply)
      → servers s ≡ some r
      → r.ok ≡ true
      → urls ≡ r.urls
      → EndsAt servers max n s urls
  refuses :
      (r : AccessReply)
      → servers s ≡ some r
      → r.ok ≡ false
      → urls ≡ none
      → (r.registry ≡ none) ⊎ (n ≡ max)
      → EndsAt servers max n s urls

pub record IsAnswered (servers : Servers) (max : ℕ) (k : Known)
    (result : Option (List PersonUrl) × Known) : Type 0 where
  pub redirects : ℕ
  pub bounded : redirects ≤ max
  pub follows : Follows servers k.server redirects result.1.server
  pub ends : EndsAt servers max redirects result.1.server result.0
  pub reported : length result.1.errors ≤ length k.errors + redirects + 1

more :
    (servers : Servers) (max : ℕ) (k : Known) (u : ℕ) (r : AccessReply)
    (result : Option (List PersonUrl) × Known)
    → servers k.server ≡ some r
    → r.ok ≡ false
    → r.registry ≡ some u
    → IsAnswered servers max (record (error 409 k) { server = u }) result
    → IsAnswered servers (suc max) k result
more servers max k u r result a b c h = record {
  redirects = suc h.redirects;
  bounded = omega (arith, h.bounded);
  follows = redirected k.server u result.1.server h.redirects r a b c h.follows;
  ends = longer h.ends;
  reported = omega (arith, h.reported);
}
  where
    longer :
        {n s : ℕ} {urls : Option (List PersonUrl)}
        → EndsAt servers max n s urls
        → EndsAt servers (suc max) (suc n) s urls
    longer (fails x y) = fails x y
    longer (answers x y z w) = answers x y z w
    longer (refuses x y z w (inl v)) = refuses x y z w (inl v)
    longer (refuses x y z w (inr v)) = refuses x y z w (inr (ap suc v))

module _ (servers : Servers) (max : ℕ) (k : Known) where
  failed : servers k.server ≡ none → IsAnswered servers max k (none, error 410 k)
  failed n = record {
    redirects = 0;
    bounded = omega arith;
    follows = here k.server;
    ends = fails n refl;
    reported = omega arith;
  }

  refused :
      (r : AccessReply)
      → servers k.server ≡ some r
      → r.ok ≡ false
      → (r.registry ≡ none) ⊎ (0 ≡ max)
      → IsAnswered servers max k (none, error 409 k)
  refused r n o e = record {
    redirects = 0;
    bounded = omega arith;
    follows = here k.server;
    ends = refuses r n o refl e;
    reported = omega arith;
  }

  take_person-server : (g : Option ℕ) → (take_person g k).server ≡ k.server
  take_person-server none = refl
  take_person-server (some g) = refl

  take_person-errors : (g : Option ℕ) → (take_person g k).errors ≡ k.errors
  take_person-errors none = refl
  take_person-errors (some g) = refl

  answered :
      (r : AccessReply)
      → servers k.server ≡ some r
      → r.ok ≡ true
      → IsAnswered servers max k (r.urls, take_person r.person_guid k)
  answered r n o =
      let e = sym (take_person-server r.person_guid) in
      record {
        redirects = 0;
        bounded = omega arith;
        follows = subst (Follows servers k.server 0) e (here k.server);
        ends = subst (λ s. EndsAt servers max 0 s r.urls) e (answers r n o refl);
        reported = omega (arith, ap length (take_person-errors r.person_guid));
      }

-- `access` ends: it follows at most `max_redirects` redirects, each from a server whose status is not ok to the
-- registry that it names, and gives the callback the urls of the last server if its status is ok, else
-- null. It stops at a refusal only if the server names no registry or no redirect is left.
pub access-IsAnswered :
    (servers : Servers) (max_redirects : ℕ) (k : Known)
    → IsAnswered servers max_redirects k (access servers max_redirects k)
unfolding access
access-IsAnswered servers zero k = elim (Option-cases (servers k.server)) [
  | inl n ↦ rw (n, access) (failed servers 0 k n)
  | inr (r, n) ↦ elim (Bool-cases r.ok) [
    | inl o ↦ rw (n, o, access) (answered servers 0 k r n o)
    | inr o ↦ rw (n, o, access) (refused servers 0 k r n o (inr refl))
  ]
]
access-IsAnswered servers (suc max) k = elim (Option-cases (servers k.server)) [
  | inl n ↦ rw (n, access) (failed servers (suc max) k n)
  | inr (r, n) ↦ elim (Bool-cases r.ok) [
    | inl o ↦ rw (n, o, access) (answered servers (suc max) k r n o)
    | inr o ↦ elim (Option-cases r.registry) [
      | inl g ↦ rw (n, o, g, access) (refused servers (suc max) k r n o (inl g))
      | inr (u, g) ↦
          let k' : Known = record (error 409 k) { server = u } in
          rw (n, o, g, access)
            (more servers max k u r (access servers max k') n o g
              (access-IsAnswered servers max k'))
    ]
  ]
]
