-- ===== src/Execution/Live/Tests.antt =====
-- Examples for the texts of the live executor.
use binance_futures.Base.{◌≡◌, refl, true, false}
use binance_futures.Base.Int.{pos}
use binance_futures.Execution.Live.{after_dot, contains, places_of, without_zeros}

places_of_a_cent : places_of (after_dot (without_zeros "0.0100000000")) ≡ pos 2
places_of_a_cent = refl

places_of_ten : places_of (after_dot (without_zeros "10.0000000000")) ≡ pos 0
places_of_ten = refl

unknown_order : contains "code=-2011, msg=Unknown order sent." "-2011" ≡ true
unknown_order = refl

other_error : contains "code=-1021, msg=Timestamp." "-2011" ≡ false
other_error = refl
