-- ===== src/Aggregate/Tests.antt =====
-- Amounts, rates, windows and accumulators at concrete inputs.
use liquidity_scope.Prelude.{
  ◌≡◌, refl, ◌↔◌, true, false, none, some, List, [], ◌∷◌, arith, ◌==◌, nat_eq, list_eq, pair_eq,
  is_ok,
}
use liquidity_scope.Model.{TypedEventRecord}
use liquidity_scope.Text.{to_lower, codes}
use liquidity_scope.Text.Decimal.{set_string}
use liquidity_scope.Aggregate.Window.{window_start, IsWindow, window_start_iff}
use liquidity_scope.Aggregate.Accumulator.{
  new_accumulator, add_event, apply_swap, apply_amounts, observe, parse_big_int,
}
use liquidity_scope.Aggregate.Accumulator.Totals.{add_events, swap_of, add_events-totals}
use liquidity_scope.Aggregate.Accumulator.Fields.{
  SameTotals, add_event-fails_iff, add_event-refused,
}
use liquidity_scope.Aggregate.Run.Tests.{event, unmarshal_amounts}
use liquidity_scope.Prelude.Int.{pos, negsuc}
use liquidity_scope.Aggregate.Format.{format_token_amount, compute_rate_from_int, compute_apr}

test_format : format_token_amount (some (pos 1234567)) 6 ≡ codes "1.234567"
unfolding format_token_amount
test_format = refl

test_format_small : format_token_amount (some (negsuc 41)) 3 ≡ codes "-0.042"
unfolding format_token_amount
test_format_small = refl

test_rate : compute_rate_from_int (some (pos 2)) (some (pos 3)) ≡ codes "0.666666666666666667"
unfolding compute_rate_from_int
test_rate = refl

test_apr :
    compute_apr (some (codes "0.000000000000000010")) none 3600
    ≡ some (codes "0.000000000000087600")
unfolding compute_apr
test_apr = refl

window_start_iff_example : (window_start 25 10 ≡ 20) ↔ IsWindow 10 20 25
window_start_iff_example = window_start_iff 25 10 20 (omega arith)

abbrev swaps : List TypedEventRecord
swaps = event "1" 7 25 ∷ event "?" 7 26 ∷ event "2" 8 27 ∷ []

add_events-totals_example :
    let a = add_events unmarshal_amounts swaps (new_accumulator (event "1" 7 25) 20 30) in
    (a.swap_count ≡ 2)
    × (a.volume0 ≡ pos 2005)
    × (a.volume1 ≡ pos 1003)
    × (a.fee0 ≡ pos 6)
    × (a.fee1 ≡ pos 3)
unfolding new_accumulator add_event apply_swap apply_amounts observe parse_big_int swap_of
    set_string to_lower
add_events-totals_example = add_events-totals unmarshal_amounts (event "1" 7 25) 20 30 swaps

add_event-fails_iff_example :
    (is_ok (add_event unmarshal_amounts (event "?" 7 26) (new_accumulator (event "1" 7 25) 20 30)).0
      ≡ false)
    ↔ (((to_lower (codes "Swap") == codes "swap") ≡ true)
        × (swap_of unmarshal_amounts (event "?" 7 26) ≡ none))
add_event-fails_iff_example =
    add_event-fails_iff unmarshal_amounts (event "?" 7 26) (new_accumulator (event "1" 7 25) 20 30)

add_event-refused_example :
    SameTotals
      (add_event unmarshal_amounts (event "?" 7 26) (new_accumulator (event "1" 7 25) 20 30)).1
      (new_accumulator (event "1" 7 25) 20 30)
unfolding add_event to_lower
add_event-refused_example =
    add_event-refused unmarshal_amounts (event "?" 7 26) (new_accumulator (event "1" 7 25) 20 30)
      refl
