-- ===== src/Sync/Elements/Tests.antt =====
-- A page of two elements, the second of which has its chart already.
use lmiced.Prelude.{◌≡◌, refl, true, some, none, [], ◌∷◌, arith}
use lmiced.Chart.Sample.{page, chart, below}
use lmiced.Sync.Elements.{Elements, chart_state, parse_dom}
use lmiced.Sync.Elements.Parsed.{IsParsed, parse_dom-IsParsed}

abbrev two_elements : Elements
two_elements = record {
  charts = below ∷ [];
  elements =
      record { object = none; attributes = chart }
      ∷ record { object = some 0; attributes = below }
      ∷ [];
  targets = [];
  updated_dom = true;
  last_page_scroll = 5;
}

parse_dom-IsParsed_example : IsParsed two_elements (parse_dom page two_elements)
parse_dom-IsParsed_example =
    parse_dom-IsParsed page two_elements
      ((λ i h. absurd (grind arith)), ((λ i h. (grind arith, tt)), tt))

second_first : (parse_dom page two_elements).targets ≡ 0 ∷ 1 ∷ []
unfolding parse_dom chart_state
second_first = refl
