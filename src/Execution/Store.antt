-- ===== src/Execution/Store.antt =====
-- The laws of the position hash, in the form of a test on the symbols.
pub mod Entries
mod Tests
use Prim.Native.String.{String}
use text.Mathlib.Text.{◌==◌ as str_eq}
use text.Mathlib.TextEquality.{eq_iff}
use binance_futures.Base.{◌≡◌, refl, none, some, List, [], ◌∷◌, arith, if◌then◌else◌}
use binance_futures.Domain.{Position}
use binance_futures.Execution.World.{find_position, store_position, drop_position}

module _ {F : Type 0} where
  pub find_position-store_position :
      (s : String) (p : Position F) (ps : List (Position F))
      → find_position s (store_position p ps)
        ≡ (if str_eq p.symbol s then some p else find_position s ps)
  find_position-store_position s p [] = refl
  find_position-store_position s p (q ∷ qs) = ground (
    arith,
    find_position-store_position s p qs,
    eq_iff p.symbol s,
    eq_iff q.symbol s,
    eq_iff q.symbol p.symbol,
  )

  pub find_position-drop_position :
      (s t : String) (ps : List (Position F))
      → find_position s (drop_position t ps) ≡ (if str_eq s t then none else find_position s ps)
  find_position-drop_position s t [] = ground arith
  find_position-drop_position s t (q ∷ qs) =
      ground (
        arith,
        find_position-drop_position s t qs,
        eq_iff q.symbol s,
        eq_iff q.symbol t,
        eq_iff s t,
      )
