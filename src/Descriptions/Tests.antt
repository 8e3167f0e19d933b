-- ===== src/Descriptions/Tests.antt =====
-- The charts `a:b` and `a_b` of the host `h/`.
use lmiced.Prelude.{ℕ, ◌≡◌, refl, ◌&&◌, [], ◌∷◌, none, some, if◌then◌else◌}
use lmiced.Prelude.Dict.{Dict, lookup, insert}
use lmiced.Descriptions.{
  Charts, Text, same_text, text_identity, fixid, fix_host, add, get, download_all,
}
use lmiced.Descriptions.Get.{get-add, get-download_all}

abbrev host : Text
host = 104 ∷ 47 ∷ []

abbrev with_colon : Text
with_colon = 97 ∷ 58 ∷ 98 ∷ []

abbrev with_line : Text
with_line = 97 ∷ 95 ∷ 98 ∷ []

abbrev no_charts : Charts ℕ
no_charts = []

abbrev seven : ℕ
seven = 7

abbrev reply : Dict Text ℕ
reply = (with_colon, 7) ∷ []

get-add_example : get host with_line (add host with_colon seven no_charts) ≡ (
    if same_text (fixid host) (fixid host) && same_text (fixid with_colon) (fixid with_line)
    then some seven
    else get host with_line no_charts)
get-add_example = get-add host with_colon host with_line seven no_charts

get-download_all_example :
    get (fix_host host) with_colon (download_all host (some reply) no_charts)
    ≡ lookup (fixid with_colon) reply
get-download_all_example = get-download_all host with_colon reply no_charts

not_found : get (fix_host host) with_colon (download_all host (some reply) no_charts) ≡ none
unfolding get download_all fixid fix_host lookup insert
not_found = refl

trimmed : fix_host (104 ∷ 47 ∷ 47 ∷ []) ≡ 104 ∷ []
unfolding fix_host
trimmed = refl
