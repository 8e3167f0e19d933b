-- ===== src/Options/Tests.antt =====
-- Two options, the second of which has been changed; a text is the successor of the number it stands
-- for, and 0 is the text `undefined`.
use lmiced.Prelude.{
  Bool, true, false, zero, suc, ℕ, zero, suc, ◌≡◌, refl, true, false, [], ◌∷◌, Option, none, some,
  arith, nat_beq, if◌then◌else◌,
}
use lmiced.Prelude.Dict.{nat_identity, lookup, insert}
use lmiced.Options.{
  options, chart_heights, Json, Storage, set_option, get_option, load_options, load_page,
  reset_options, reload,
}
use lmiced.Options.Stored.{set_option-survives}
use lmiced.Options.Reset.{default_or_current, reset_options-lookup}

abbrev parse_number : ℕ → Option ℕ
parse_number zero = none
parse_number (suc n) = some n

abbrev is_zero : ℕ → Bool
is_zero zero = true
is_zero (suc n) = false

abbrev json : Json ℕ ℕ
json = record {
  stringify = λ v. suc v;
  parse = parse_number;
  is_undefined = λ v. false;
  undefined_text = is_zero;
  parse-stringify = λ v h. refl;
  stringify-text = λ v h. refl;
}

abbrev storage : Storage ℕ ℕ ℕ
storage = record {
  default = (options 1, 1000) ∷ (options 2, 50) ∷ (chart_heights 1, 200) ∷ [];
  current = (options 1, 1000) ∷ (options 2, 70) ∷ [];
  callback = [];
  browser = (options 2, 71) ∷ [];
  usable = true;
  writable = true;
  options = (1, 1000) ∷ (2, 70) ∷ (3, 5) ∷ [];
  reset_heights = [];
}

set_option-survives_example :
    get_option nat_identity json 1 (
      load_page nat_identity json 2 1
        ((1, 1000) ∷ (2, 50) ∷ [])
        (reload (set_option nat_identity json 1 400 storage)))
    ≡ some (if nat_beq 2 1 then 1 else 400)
unfolding get_option lookup
set_option-survives_example =
    set_option-survives nat_identity json 2 1 1 400 ((1, 1000) ∷ (2, 50) ∷ []) storage refl refl
      refl (λ h. grind arith) refl

-- The option 2, which every load sets to 1, does not keep its 70.
set_by_load :
    get_option nat_identity json 2
      (load_page nat_identity json 2 1 ((1, 1000) ∷ (2, 50) ∷ []) (reload storage))
    ≡ some 1
unfolding get_option lookup load_page load_options set_option insert
set_by_load = refl

reset_options-lookup_example :
    (lookup 2 (reset_options nat_identity json storage).options
      ≡ default_or_current nat_identity json 2 storage)
    × ((reset_options nat_identity json storage).default ≡ storage.default)
reset_options-lookup_example = reset_options-lookup nat_identity json 2 storage

reset_options_test : lookup 2 (reset_options nat_identity json storage).options ≡ some 50
unfolding reset_options lookup insert
reset_options_test = refl
