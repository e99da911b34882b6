-- ===== src/Execution/Store/Entries.antt =====
-- `SetPendingEntry`, `GetPendingEntry` and `RemovePendingEntry` of internal/storage/redis.go.
use Prim.Native.String.{String}
use text.Mathlib.Text.{◌==◌ as str_eq}
use text.Mathlib.TextEquality.{eq_iff}
use binance_futures.Base.{
  ℕ, ◌+◌, ◌≡◌, ◌∙◌, sym, ap, inl, inr, Bool-cases, true, not, none, some, List, [], ◌∷◌, keep, ltb,
  leb, ◌==◌, arith, if◌then◌else◌,
}
use binance_futures.Domain.{PendingEntry}
use binance_futures.Execution.World.{
  Exchange, StoredEntry, World, find_entry, get_pending_entry, remove_pending_entry,
  set_pending_entry,
}

module _ {F : Type 0} (x : Exchange F)
    (distinct : (i j : ℕ) → x.uuid_text i ≡ x.uuid_text j → i ≡ j) (now : ℕ) (key : String) where
  same_key :
      (i j : ℕ) → str_eq (x.uuid_text i) key ≡ true → str_eq (x.uuid_text j) key ≡ true → i ≡ j
  same_key i j h k =
      distinct i j ((eq_iff (x.uuid_text i) key).0 h ∙ sym ((eq_iff (x.uuid_text j) key).0 k))

  find_entry-keep :
      (id : ℕ) (os : List StoredEntry)
      → find_entry x now key (keep (λ o. not (o.id == id)) os)
        ≡ (if str_eq (x.uuid_text id) key then none else find_entry x now key os)
  find_entry-keep id [] = ground arith
  find_entry-keep id (o ∷ os) = elim (Bool-cases (o.id == id)) [
    | inl y ↦
        let same : o.id ≡ id = ground (arith, y) in
        ground (arith, find_entry-keep id os, same, ap x.uuid_text same)
    | inr n ↦ ground (arith, find_entry-keep id os, n, same_key o.id id)
  ]

  -- With texts that tell trade ids apart, and a JSON that is read as the entry it was made of: a pending
  -- entry that has a JSON is found under its own text as it was stored, until it expires, or for 60 s if
  -- it had expired when it was stored, and without a JSON nothing changes; no other key finds it or
  -- loses what it found. Once it is removed, its text finds nothing and the other keys what they found.
  pub get_pending_entry-set_pending_entry :
      (stored_at : ℕ) (e : PendingEntry F)
      → ((text : String) → x.entry_json e ≡ some text → x.entry_of_json text ≡ some e)
      → (w : World F)
      → let own = str_eq (x.uuid_text e.trade_id) key in
        let before = get_pending_entry x now key w in
        let stored = set_pending_entry x stored_at e w in
        let gone_at =
          if leb e.expires_at stored_at then stored_at + 60_000_000_000 else e.expires_at in
        ((text : String)
          → x.entry_json e ≡ some text
          → get_pending_entry x now key stored
            ≡ (if own then (if ltb now gone_at then some e else none) else before))
        × (x.entry_json e ≡ none → get_pending_entry x now key stored ≡ before)
        × (get_pending_entry x now key (remove_pending_entry e.trade_id stored)
            ≡ (if own then none else before))
  get_pending_entry-set_pending_entry stored_at e reads w =
      let kept = find_entry-keep e.trade_id w.entries in
      let stored = set_pending_entry x stored_at e w in
      (
        λ text h. ground (arith, kept, h, reads text h),
        λ h. ground (arith, h),
        ground (arith, find_entry-keep e.trade_id stored.entries, kept),
      )
