-- ===== src/Xfer64/Examples.antt =====
-- Runs of crates/xfer64/src-tauri: the theorems at concrete inputs.
use multi.Common.Keys.{same_key}
use multi.Common.{
  Bool, ◌≤◌, ◌≡◌, refl, List, [], ◌∷◌, some, true, false, ◌⊎◌, inl, inr, arith, ℕ, ◌-◌, leb, ◌&&◌,
  ◌==◌, if◌then◌else◌, err, All,
}
use multi.Xfer64.CopyPlan.{
  Destination, shared, destination_at, destination_key, fat_name_key, fat_upcase_unit,
  cart_parent_trimmed, refuse_loop, refuse_shared_destinations,
}
use multi.Xfer64.CopyPlan.Places.{path_of}
use multi.Xfer64.CopyPlan.Paths.{IsPathOf}
use multi.Xfer64.CopyPlan.Refusing.{IsAnswer, refuse_shared_destinations-IsAnswer}
use multi.Xfer64.CloseGuard.{
  Label, get, alter, Inner, default_inner, busy, set_busy, hold_close, Event, explorer_set_busy,
  on_close_requested, step, run,
}
use multi.Xfer64.CloseGuard.Reports.{Report, reports, held_of, IsLatestSince, reports-IsLatestSince}
use multi.Xfer64.CloseGuard.Ordering.{busy-reports_order}
use multi.Xfer64.CloseGuard.Exiting.{closes, busy_throughout, run-exits, run-closes}

abbrev main : Label
main = b'm' ∷ []

abbrev picker : Label
picker = b'u' ∷ []

abbrev started : Report
started = record { window = main; seq = 1; under_way = true }

abbrev ended : Report
ended = record { window = main; seq = 2; under_way = false }

reports-IsLatestSince_example :
    IsLatestSince
      (0, false)
      main
      (ended ∷ started ∷ [])
      (held_of main (reports default_inner (ended ∷ started ∷ [])))
unfolding get
reports-IsLatestSince_example = reports-IsLatestSince main (ended ∷ started ∷ []) default_inner

busy-reports_order_example :
    busy (reports default_inner (started ∷ ended ∷ []))
    ≡ busy (reports default_inner (ended ∷ started ∷ []))
busy-reports_order_example =
    busy-reports_order (started ∷ ended ∷ []) (ended ∷ started ∷ [])
      (omega arith, (omega arith, tt)) (omega arith, (omega arith, tt))
      (
        (inr (inr refl), (inr (inl (omega arith)), tt)),
        ((inr (inl (omega arith)), (inr (inr refl), tt)), tt),
      )
      ((inr (inl refl), (inl refl, tt)), (inr (inl refl), (inl refl, tt)))

abbrev insisting : List Event
insisting = explorer_set_busy main 1 true ∷ on_close_requested ∷ on_close_requested ∷ []

abbrev insisted : Inner
insisted = record { windows = (main, (1, true)) ∷ []; close_when_idle = false; held = 2 }

insisting_runs : run insisting default_inner ≡ some insisted
unfolding run step set_busy hold_close get alter same_key
insisting_runs = refl

forced : (step insisted on_close_requested).0 ≡ true
unfolding step hold_close
forced = refl

run-exits_example :
    (busy (step insisted on_close_requested).1 ≡ false)
    ⊎ ((on_close_requested ≡ on_close_requested) × (insisted.held ≡ 2))
run-exits_example = run-exits insisting insisted on_close_requested insisting_runs forced

abbrev working : Inner
working = record { windows = (main, (1, true)) ∷ []; close_when_idle = false; held = 0 }

begins : run (explorer_set_busy main 1 true ∷ []) default_inner ≡ some working
unfolding run step set_busy get alter same_key
begins = refl

holds : run (on_close_requested ∷ on_close_requested ∷ []) working ≡ some insisted
unfolding run step hold_close
holds = refl

stays_busy : busy_throughout (on_close_requested ∷ on_close_requested ∷ []) working ≡ true
unfolding busy_throughout step hold_close
stays_busy = refl

run-closes_example : closes (on_close_requested ∷ on_close_requested ∷ []) ≤ 2
run-closes_example =
    run-closes (explorer_set_busy main 1 true ∷ []) (on_close_requested ∷ on_close_requested ∷ [])
      working insisted begins holds stays_busy

-- The uppercase and the white space of ASCII.
abbrev ascii_upper : ℕ → List ℕ
ascii_upper c = if leb b'a' c && leb c b'z' then (c - 32) ∷ [] else c ∷ []

abbrev ascii_space : ℕ → Bool
ascii_space c = c == 0x20

-- `a.z`, and `/A.z `, both to the cart.
abbrev lower : Destination
lower = record {
  source = b'1' ∷ [];
  dest = b'a' ∷ b'.' ∷ b'z' ∷ [];
  is_dir = false;
  on_cart = true;
}

abbrev upper : Destination
upper = record {
  source = b'2' ∷ [];
  dest = b'/' ∷ b'A' ∷ b'.' ∷ b'z' ∷ b' ' ∷ [];
  is_dir = false;
  on_cart = true;
}

refused :
    refuse_shared_destinations ascii_upper ascii_space (lower ∷ upper ∷ [])
    ≡ err (shared lower upper)
unfolding refuse_shared_destinations refuse_loop destination_key fat_name_key fat_upcase_unit
    cart_parent_trimmed destination_at same_key
refused = refl

refuse_shared_destinations-IsAnswer_example :
    IsAnswer ascii_upper ascii_space
      (lower ∷ upper ∷ [])
      (refuse_shared_destinations ascii_upper ascii_space (lower ∷ upper ∷ []))
    × All
        (λ d. IsPathOf ascii_upper ascii_space d (path_of ascii_upper ascii_space d))
        (lower ∷ upper ∷ [])
refuse_shared_destinations-IsAnswer_example =
    refuse_shared_destinations-IsAnswer ascii_upper ascii_space (lower ∷ upper ∷ [])
