-- ===== src/Sync/Elements/Parsed.antt =====
-- The references that `parseDom` collects, and the charts that it makes (portal/dashboard.js).
use lmiced.Prelude.{
  ℕ, zero, suc, ◌≤◌, ◌<◌, ◌≡◌, ◌≢◌, refl, sym, subst, ◌∙◌, ap, inl, inr, true, false, List, [], ◌∷◌,
  ◌++◌, map, Option, none, some, length, get_elem?, length-append, arith, Option-cases,
}
use lmiced.Chart.{Chart, Env}
use lmiced.Chart.Life.{init}
use lmiced.Sync.Elements.{Element, Elements, chart_state, chart_states, parse_dom}

-- The references of the elements, the last one first
abbrev pub backwards : List Element → List (Option ℕ)
backwards [] = []
backwards (x ∷ xs) = backwards xs ++ x.object ∷ []

abbrev pub Avoids : ℕ → List Element → Type 0
Avoids i [] = Unit {0}
Avoids i (x ∷ xs) = (x.object ≢ some i) × Avoids i xs

-- No two elements refer to one chart, and each reference is to one of `n` charts.
abbrev pub IsApart : ℕ → List Element → Type 0
IsApart n [] = Unit {0}
IsApart n (x ∷ xs) = ((i : ℕ) → x.object ≡ some i → (i < n) × Avoids i xs) × IsApart n xs

get_elem?-append :
    (xs ys : List Chart) (j : ℕ) → j < length xs → get_elem? (xs ++ ys) j ≡ get_elem? xs j
get_elem?-append [] ys j l = absurd (omega arith)
get_elem?-append (x ∷ xs) ys zero l = refl
get_elem?-append (x ∷ xs) ys (suc j) l = get_elem?-append xs ys j (omega arith)

map-snoc : (ks : List ℕ) (k : ℕ) → map some (ks ++ k ∷ []) ≡ map some ks ++ some k ∷ []
map-snoc [] k = refl
map-snoc (x ∷ ks) k = ap (λ l. some x ∷ l) (map-snoc ks k)

Avoids-last : (n i : ℕ) (xs : List Element) → IsApart n xs → n ≤ i → Avoids i xs
Avoids-last n i [] h l = tt
Avoids-last n i (x ∷ xs) (h, t) l =
    ((λ e. let (b, a) = h i e in absurd (omega arith)), Avoids-last n i xs t l)

IsApart-more : (n m : ℕ) (xs : List Element) → n ≤ m → IsApart n xs → IsApart m xs
IsApart-more n m [] l h = tt
IsApart-more n m (x ∷ xs) l (h, t) =
    ((λ i e. let (b, a) = h i e in (omega arith, a)), IsApart-more n m xs l t)

record AreParsed (xs : List Element) (charts : List Chart) (r : List ℕ × List Element × List Chart)
    : Type 0 where
  told : map some r.0 ≡ backwards r.1
  grows : length charts ≤ length r.2
  kept : (j : ℕ) → j < length charts → get_elem? r.2 j ≡ get_elem? charts j
  avoids : (i : ℕ) → i < length charts → Avoids i xs → Avoids i r.1
  apart : IsApart (length charts) xs → IsApart (length r.2) r.1
  again : (e : Env) (more : List Chart) → chart_states e r.1 more ≡ (r.0, r.1, more)

-- An element that has a chart
chart_states-known :
    (e : Env) (x : Element) (xs : List Element) (charts : List Chart) (k : ℕ)
    → x.object ≡ some k
    → chart_states e (x ∷ xs) charts
      ≡ (let (ks, ys, later) = chart_states e xs charts in (ks ++ k ∷ [], x ∷ ys, later))
unfolding chart_states chart_state
chart_states-known e x xs charts k h = simp (h, chart_state)

chart_states-new :
    (e : Env) (x : Element) (xs : List Element) (charts : List Chart)
    → x.object ≡ none
    → chart_states e (x ∷ xs) charts ≡ (
        let (ks, ys, later) = chart_states e xs charts in
        let k = length later in
        (
          ks ++ k ∷ [],
          record x { object = some k } ∷ ys,
          later ++ init false true e x.attributes ∷ [],
        ))
unfolding chart_states chart_state
chart_states-new e x xs charts h = rw (h, chart_state) refl

chart_states-AreParsed :
    (e : Env) (xs : List Element) (charts : List Chart)
    → AreParsed xs charts (chart_states e xs charts)
unfolding chart_states
chart_states-AreParsed e [] charts = record {
  told = refl;
  grows = omega arith;
  kept = λ j l. refl;
  avoids = λ i l a. a;
  apart = λ a. a;
  again = λ e' more. refl;
}
chart_states-AreParsed e (x ∷ xs) charts =
    let (ks, ys, later) = chart_states e xs charts in
    let ih : AreParsed xs charts (ks, ys, later) = chart_states-AreParsed e xs charts in
    elim (Option-cases x.object) [
      | inr (k, h) ↦
          subst (AreParsed (x ∷ xs) charts) (sym (chart_states-known e x xs charts k h)) record {
            told =
                map-snoc ks k
                ∙ ap (λ l. l ++ some k ∷ []) ih.told
                ∙ ap (λ o. backwards ys ++ o ∷ []) (sym h);
            grows = ih.grows;
            kept = ih.kept;
            avoids = λ i l (a, t). (a, ih.avoids i l t);
            apart = λ (a, t). (
              (λ i b. let (c, d) = a i b in (omega (arith, ih.grows), ih.avoids i c d)),
              ih.apart t,
            );
            again = λ e' more.
                chart_states-known e' x ys more k h
                ∙ ap (λ r. (r.0 ++ k ∷ [], x ∷ r.1, r.2)) (ih.again e' more);
          }
      | inl h ↦
          let k = length later in
          let made = init false true e x.attributes ∷ [] in
          let n : length (later ++ made) ≡ suc k = omega (arith, length-append later made) in
          let y = record x { object = some k } in
          subst (AreParsed (x ∷ xs) charts) (sym (chart_states-new e x xs charts h)) record {
            told = map-snoc ks k ∙ ap (λ l. l ++ some k ∷ []) ih.told;
            grows = omega (arith, n, ih.grows);
            kept = λ j l. get_elem?-append later made j (omega (arith, ih.grows)) ∙ ih.kept j l;
            avoids = λ i l (a, t). ((λ b. grind (arith, ih.grows, b)), ih.avoids i l t);
            apart = λ (a, t).
                let u = ih.apart t in
                (
                  (λ i b.
                      let c : k ≡ i = grind (arith, b) in
                      (omega arith, Avoids-last k i ys u (omega arith))),
                  IsApart-more k (length (later ++ made)) ys (omega arith) u,
                );
            again = λ e' more.
                chart_states-known e' y ys more k refl
                ∙ ap (λ r. (r.0 ++ k ∷ [], y ∷ r.1, r.2)) (ih.again e' more);
          }
    ]

-- `parseDom` gives every element of the page a chart of its own and collects the references to these
-- charts from the last element to the first. The charts that were there stay as they are, no two
-- elements share a chart if none did before, and parsing the page again neither makes charts nor
-- changes the targets.
pub record IsParsed (p q : Elements) : Type 0 where
  pub told : map some q.targets ≡ backwards q.elements
  pub kept : (j : ℕ) → j < length p.charts → get_elem? q.charts j ≡ get_elem? p.charts j
  pub apart : IsApart (length q.charts) q.elements
  pub again : (e : Env) → parse_dom e q ≡ record q { updated_dom = false; last_page_scroll = e.now }

pub parse_dom-IsParsed :
    (e : Env) (p : Elements) → IsApart (length p.charts) p.elements → IsParsed p (parse_dom e p)
unfolding parse_dom
parse_dom-IsParsed e p h =
    let a = chart_states-AreParsed e p.elements p.charts in
    let (ks, ys, charts) = chart_states e p.elements p.charts in
    record {
      told = a.told;
      kept = a.kept;
      apart = a.apart h;
      again = λ e'. rw (a.again e' charts) refl;
    }
