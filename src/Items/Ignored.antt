-- ===== src/Items/Ignored.antt =====
-- handlers/items.go: HandlePatchSubItem sets the fields of a record that it does not save.
use project_tracker.Prelude.{
  String, ◌≡◌, ◌≢◌, inl, inr, sym, ap, ◌∙◌, subst, false, some, some-injective, Bool-cases, ◌==◌,
  ◌||◌,
}
use project_tracker.Prelude.Exec.{Result, ok, err, resume}
use project_tracker.Store.Schema.{Float64, SubItem, main_boq_items, sub_items}
use project_tracker.Store.App.{App, Laws}
use project_tracker.Services.{Error}
use project_tracker.Shipment.Form.{Form}
use project_tracker.Items.Patch.{price_parent, patch_fields, set_sub_field, handle_patch_sub_item}
use project_tracker.Items.{sub_item_price, recalc_sub_item_budgeted}
use project_tracker.Items.Totals.{
  Ran, SubPriced, MainPriced, recalc_sub_item_budgeted-SubPriced,
  recalc_main_item_budgeted-MainPriced,
}

sub_main_apart : sub_items ≢ main_boq_items
sub_main_apart e = cc

module _ (app : App) where
  open app use {Db, find_record_by_id}

  -- The stored sub-item has the fields of `si`, but for its budgeted price.
  abbrev pub Unpatched : String → SubItem → Db → Type 0
  Unpatched i si db =
      (p : Float64) × (find_record_by_id sub_items i db ≡ some (record si { budgeted_price = p }))

  module _ (laws : Laws app) (i : String) (si : SubItem) where
    after_sub :
        (db db' : Db)
        → find_record_by_id sub_items i db ≡ some si
        → SubPriced app i db db'
        → Unpatched i si db'
    after_sub db db' found (inl same) =
        (si.budgeted_price, ap (find_record_by_id sub_items i) same ∙ found)
    after_sub db db' found (inr (s, ssis, found', q, saved)) =
        let e : s ≡ si = some-injective s si (sym found' ∙ found) in
        let j : s.id ≡ i = laws.id-find sub_items i db s found' in
        let price = sub_item_price app s ssis in
        (
          price,
          subst
                (λ k.
                  find_record_by_id sub_items k db' ≡ some (record s { budgeted_price = price }))
                j saved.found
              ∙ ap (λ (x : SubItem). some (record x { budgeted_price = price })) e,
        )

    after_main :
        (j : String) (db db' : Db)
        → Unpatched i si db
        → MainPriced app j db db'
        → Unpatched i si db'
    after_main j db db' (p, found) (inl same) = (p, ap (find_record_by_id sub_items i) same ∙ found)
    after_main j db db' (p, found) (inr (mi, sis, f, q, saved)) =
        (p, saved.elsewhere sub_items i sub_main_apart ∙ found)

    price_parent-Unpatched :
        (db : Db) → Unpatched i si db → Unpatched i si ((price_parent app i db).1)
    unfolding price_parent
    price_parent-Unpatched db (p, found) = rw found (
        after_main si.main_item db _ (p, found)
          (recalc_main_item_budgeted-MainPriced app laws si.main_item db).1)

    resumed :
        (db : Db) (r : Result Error (Unit {0}) × Db)
        → find_record_by_id sub_items i db ≡ some si
        → Ran app (SubPriced app i db) r
        → Unpatched i si ((resume (λ _. price_parent app i) r).1)
    resumed db (ok a, d) found (fine, priced) =
        price_parent-Unpatched d (after_sub db d found priced)
    resumed db (err e, d) found (fine, priced) = absurd (cc)

    -- Whatever fields the form of HandlePatchSubItem sets, the stored sub-item keeps them all; only
    -- its budgeted price can change.
    pub handle_patch_sub_item-Unpatched :
        (boq_id : String) (form : Form) (db : Db)
        → find_record_by_id sub_items i db ≡ some si
        → Unpatched i si ((handle_patch_sub_item app boq_id i form db).1)
    unfolding handle_patch_sub_item
    handle_patch_sub_item-Unpatched boq_id form db found =
        elim (Bool-cases (boq_id == "" || i == "")) [
          | inl blank ↦ rw blank (si.budgeted_price, found)
          | inr named ↦ elim (Bool-cases (patch_fields (set_sub_field app) form si false).1) [
            | inr same ↦ rw (named, found, same) (si.budgeted_price, found)
            | inl changed ↦
                rw (named, found, changed)
                  (resumed db (recalc_sub_item_budgeted app i db) found
                    (recalc_sub_item_budgeted-SubPriced app laws i db))
          ]
        ]
