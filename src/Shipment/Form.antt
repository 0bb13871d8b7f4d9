-- ===== src/Shipment/Form.antt =====
-- services/dc_creation.go: `parseSerials`, `ParseShipmentItemsFromForm`. A form maps each name to a
-- list of values. `fmt.Sscanf` is the standard library's and comes as a parameter.
use Prim.Native.Char.{Char, code}
use project_tracker.Prelude.{
  ℕ, zero, suc, String, ◌==◌, if◌then◌else◌, none, some, List, [], ◌∷◌, contains, lookup, eqb,
}
use project_tracker.Prelude.Int.{ℤ, pos, ◌+ℤ◌}
use project_tracker.Prelude.Text.{◌<>◌, replace_all, decimal}
use project_tracker.Prelude.Text.Space.{trim_space}
use project_tracker.Store.Schema.{Float64}
use project_tracker.Shipment.Params.{ShipmentItemParams}

-- A character in front of the first of some parts.
abbrev pub onto_first : Char → List String → List String
onto_first c [] = String.◌∷◌ c "" ∷ []
onto_first c (p ∷ ps) = String.◌∷◌ c p ∷ ps

-- `strings.Split(s, "\n")`: always at least one part.
unfoldable pub split_lines : String → List String
split_lines String.[] = "" ∷ []
split_lines (String.◌∷◌ c s) =
    let rest = split_lines s in if eqb (code c) 10 then "" ∷ rest else onto_first c rest

-- The trimmed parts that are not empty.
unfoldable pub kept_parts : List String → List String
kept_parts [] = []
kept_parts (p ∷ ps) =
    let rest = kept_parts ps in if trim_space p == "" then rest else trim_space p ∷ rest

-- `parseSerials`: serials are separated by line ends and commas.
unfoldable pub parse_serials : String → List String
parse_serials raw = kept_parts (split_lines (replace_all (replace_all raw "\r\n" "\n") "," "\n"))

-- The keys in order of their first occurrence.
unfoldable pub unique_keys : List String → List String → List String
unique_keys seen [] = []
unique_keys seen (k ∷ keys) =
    let rest = unique_keys (if contains k seen then seen else k ∷ seen) keys in
    if contains k seen then rest else k ∷ rest

abbrev pub Form : Type 0
Form = List (String × List String)

abbrev pub values : String → Form → List String
values name form = elim (lookup name form) [ none ↦ [] | some vs ↦ vs ]

-- `getVal`: the first value of a name, or the empty text.
unfoldable pub get_val : Form → String → String
get_val form name = elim (values name form) [ [] ↦ "" | v ∷ vs ↦ v ]

-- What `fmt.Sscanf` makes of a text: the zero value where it reads no number.
pub record Scanner : Type 0 where
  pub scan_int : String → ℤ
  pub scan_float : String → Float64

unfoldable pub parse_form_int : Scanner → String → ℤ
parse_form_int sc s = sc.scan_int (trim_space s)

unfoldable pub parse_form_float : Scanner → String → Float64
parse_form_float sc s = sc.scan_float (trim_space s)

-- The quantities of an item for the `n` destinations from index `i` on.
unfoldable pub form_quantities : Scanner → Form → String → ℕ → ℕ → List ℤ
unfolding parse_form_int
form_quantities sc form key i zero = []
form_quantities sc form key i (suc n) =
    parse_form_int sc (get_val form ("qty_" <> key <> "_dest_" <> decimal i))
    ∷ form_quantities sc form key (suc i) n

-- `totalQty += qty` for each, on `int`.
unfoldable pub total_from : ℤ → List ℤ → ℤ
total_from acc [] = acc
total_from acc (q ∷ qs) = total_from (acc +ℤ q) qs

unfoldable pub form_item : Scanner → Form → ℕ → String → ShipmentItemParams
form_item sc form num_dest key =
    let quantities = form_quantities sc form key 0 num_dest in
    record {
      source_item_type = get_val form ("item_type_" <> key);
      source_item_id = get_val form ("item_id_" <> key);
      rate = parse_form_float sc (get_val form ("item_rate_" <> key));
      tax_percentage = parse_form_float sc (get_val form ("item_tax_" <> key));
      serial_tracking = get_val form ("item_serial_tracking_" <> key);
      quantities = quantities;
      total_qty = total_from (pos 0) quantities;
      serials = parse_serials (get_val form ("serials_" <> key));
    }

unfoldable pub form_items : Scanner → Form → ℕ → List String → List ShipmentItemParams
form_items sc form num_dest [] = []
form_items sc form num_dest (k ∷ keys) =
    form_item sc form num_dest k ∷ form_items sc form num_dest keys

-- `ParseShipmentItemsFromForm`
unfoldable pub parse_shipment_items : Scanner → Form → ℕ → List ShipmentItemParams
unfolding form_items form_item
parse_shipment_items sc form num_dest =
    form_items sc form num_dest (unique_keys [] (values "item_keys" form))
