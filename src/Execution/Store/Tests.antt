-- ===== src/Execution/Store/Tests.antt =====
-- An example for the pending entries: trade ids in unary.
use Prim.Native.String.{String, len, ◌++◌}
use text.Mathlib.Text.{◌==◌ as str_eq}
use text.Mathlib.TextPositions.{len-append}
use binance_futures.Base.{
  ℕ, suc, ◌≡◌, ◌∙◌, sym, ap, refl, arith, none, some, [], ltb, if◌then◌else◌,
}
use binance_futures.Base.Int.{ℤ}
use binance_futures.Samples.{entry, exchange, world}
use binance_futures.Execution.World.{
  Exchange, get_pending_entry, remove_pending_entry, set_pending_entry,
}
use binance_futures.Execution.Store.Entries.{get_pending_entry-set_pending_entry}
use Prim.Native.Nat.{zero}

abbrev unary : ℕ → String
unary zero = ""
unary (suc n) = "i" ++ unary n

len-unary : (n : ℕ) → len (unary n) ≡ n
len-unary zero = refl
len-unary (suc n) = len-append "i" (unary n) ∙ omega (arith, len-unary n)

unary_distinct : (i j : ℕ) → unary i ≡ unary j → i ≡ j
unary_distinct i j h = sym (len-unary i) ∙ ap len h ∙ len-unary j

abbrev json : String
json = "entry"

abbrev labelling : Exchange ℤ
labelling = record (exchange none) {
  uuid_text = unary;
  entry_json = λ _. some json;
  entry_of_json = λ _. some entry;
}

reads_entry : (text : String) → some json ≡ some text → some entry ≡ some entry
reads_entry text h = refl

get_pending_entry_example :
    let own = str_eq (unary 9) (unary 9) in
    let before = get_pending_entry labelling 50 (unary 9) (world []) in
    let stored = set_pending_entry labelling 10 entry (world []) in
    ((text : String)
      → some json ≡ some text
      → get_pending_entry labelling 50 (unary 9) stored
        ≡ (if own then (if ltb 50 70 then some entry else none) else before))
    × (some json ≡ none → get_pending_entry labelling 50 (unary 9) stored ≡ before)
    × (get_pending_entry labelling 50 (unary 9) (remove_pending_entry 9 stored)
        ≡ (if own then none else before))
get_pending_entry_example =
    get_pending_entry-set_pending_entry labelling unary_distinct 50 (unary 9) 10 entry reads_entry
      (world [])
