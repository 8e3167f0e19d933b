-- ===== src/Descriptions/Get.antt =====
-- What `chartRegistry.get` finds after `add` and `downloadAll` (portal/dashboard.js).
use lmiced.Prelude.{
  ◌≡◌, refl, ◌∙◌, sym, ap, Bool, true, false, ◌&&◌, Option, some, Bool-cases, Option-cases, inl,
  inr, if◌then◌else◌,
}
use lmiced.Prelude.Dict.{Dict, lookup, insert, lookup-insert}
use lmiced.Descriptions.{
  Text, same_text, same_text_iff, text_identity, fixid, fix_host, Charts, charts_of, or_empty, add,
  get, download_all,
}

module _ {D : Type 0} where
  get-charts_of :
      (host id : Text) (charts : Charts D)
      → get host id charts ≡ lookup (fixid id) (charts_of (fixid host) charts)
  unfolding get lookup
  get-charts_of host id charts = elim (Option-cases (lookup (fixid host) charts)) [
    | inl n ↦ rw (n, get) refl
    | inr (t, n) ↦ rw (n, get) refl
  ]

  or_empty-if :
      (b : Bool) (t : Dict Text D) (o : Option (Dict Text D))
      → or_empty (if b then some t else o) ≡ (if b then t else or_empty o)
  or_empty-if true t o = refl
  or_empty-if false t o = refl

  charts_of-insert :
      (k h : Text) (t : Dict Text D) (charts : Charts D)
      → charts_of h (insert k t charts) ≡ (if same_text k h then t else charts_of h charts)
  charts_of-insert k h t charts =
      ap or_empty (lookup-insert k h t charts) ∙ or_empty-if (same_text k h) t (lookup h charts)

  -- A chart's description is found again after it is added. The same one is found under every host and id
  -- that differ from these in `:`, `/` and `_` alone; all others find what they found before.
  pub get-add :
      (host id host' id' : Text) (chart : D) (charts : Charts D)
      → get host' id' (add host id chart charts) ≡ (
          if same_text (fixid host) (fixid host') && same_text (fixid id) (fixid id')
          then some chart
          else get host' id' charts)
  unfolding add
  get-add host id host' id' chart charts =
      let h = fixid host in
      let t = insert (fixid id) chart (charts_of h charts) in
      get-charts_of host' id' (insert h t charts)
      ∙ ap (lookup (fixid id')) (charts_of-insert h (fixid host') t charts)
      ∙ elim (Bool-cases (same_text h (fixid host'))) [
        | inr e ↦ rw e (sym (get-charts_of host' id' charts))
        | inl e ↦ rw e (
            lookup-insert (fixid id) (fixid id') chart (charts_of h charts)
            ∙ ap (λ o. if same_text (fixid id) (fixid id') then some chart else o)
                (ap (λ k. lookup (fixid id') (charts_of k charts))
                    ((same_text_iff h (fixid host')).0 e)
                  ∙ sym (get-charts_of host' id' charts)))
      ]

  -- After the download of all the descriptions of a host, a chart of that host is looked for under its
  -- fixed id only, while the reply has the ids as the server spells them: one whose fixed id is not
  -- in the reply is not found, even if its own id is.
  pub get-download_all :
      (host id : Text) (reply : Dict Text D) (charts : Charts D)
      → get (fix_host host) id (download_all host (some reply) charts) ≡ lookup (fixid id) reply
  unfolding download_all
  get-download_all host id reply charts =
      let h = fixid (fix_host host) in
      get-charts_of (fix_host host) id (insert h reply charts)
      ∙ ap (lookup (fixid id)) (charts_of-insert h h reply charts)
      ∙ rw ((same_text_iff h h).1 refl) refl
